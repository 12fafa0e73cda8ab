-- ===== src/Chase.antt =====
-- `build_chases` of bench/src/bench.c. The buffer is the memory at the addresses `base + n * stride`,
-- one pointer to a node; a pointer is its address.
pub mod Shuffle
pub mod Links
pub mod Cycle
use cross_platform_benchmark.Prelude.{
  ℕ, zero, suc, ◌+◌, ◌-◌, ◌*◌, ◌/◌, ◌%◌, ◌^◌, Bool, true, false, not, List, [], ◌∷◌, ◌++◌, Option,
  none, some, ◌==◌, ltb, if◌then◌else◌, get_or, set, u32, ◌≡◌, arith, replicate,
}
use cross_platform_benchmark.Rng.{xs64}

-- What is stored at each address.
abbrev pub Memory : Type 0
Memory = ℕ → ℕ

abbrev pub store : Memory → ℕ → ℕ → Memory
store m a v = λ b. if b == a then v else m b

-- The first loop over `order`: the nodes that way `wi` owns, in order, `left` to go from index `i`.
unfoldable pub own_nodes : ℕ → ℕ → ℕ → ℕ → List ℕ
own_nodes zero i ways wi = []
own_nodes (suc left) i ways wi = u32 (i * ways + wi) ∷ own_nodes left (i + 1) ways wi

abbrev pub swap : List ℕ → ℕ → ℕ → List ℕ
swap order i j = let tmp = get_or order i 0 in set (set order i (get_or order j 0)) j tmp

pub record Shuffled : Type 0 where
  pub order : List ℕ
  pub rng : ℕ

-- `for (i = per_way - 1; i > 0; --i)`, by recursion on `i`.
unfoldable pub shuffle : ℕ → List ℕ → ℕ → Shuffled
unfolding xs64
shuffle zero order s = record { order = order; rng = s }
shuffle (suc i) order s =
    let draw = xs64 s in shuffle i (swap order (suc i) (draw.value % (suc i + 1))) draw.state

-- The third loop: node `order[i]` points at node `order[(i + 1) % per_way]`.
unfoldable pub link : ℕ → ℕ → ℕ → ℕ → ℕ → List ℕ → Memory → Memory
link zero i base stride per_way order m = m
link (suc left) i base stride per_way order m = link left (i + 1) base stride per_way order (
    store m (base + get_or order i 0 * stride) (base + get_or order ((i + 1) % per_way) 0 * stride))

pub record Built : Type 0 where
  pub memory : Memory
  pub heads : List ℕ
  pub rng : ℕ

-- The body of the loop over the ways.
unfoldable pub build_way : ℕ → ℕ → ℕ → ℕ → ℕ → Built → Built
unfolding own_nodes shuffle link
build_way base stride ways per_way wi b =
    let shuffled = shuffle (per_way - 1) (own_nodes per_way 0 ways wi) b.rng in
    record {
      memory = link per_way 0 base stride per_way shuffled.order b.memory;
      heads = b.heads ++ (base + get_or shuffled.order 0 0 * stride) ∷ [];
      rng = shuffled.rng;
    }

unfoldable pub build_ways : ℕ → ℕ → ℕ → ℕ → ℕ → ℕ → Built → Built
unfolding build_way
build_ways zero wi base stride ways per_way b = b
build_ways (suc left) wi base stride ways per_way b =
    build_ways left (wi + 1) base stride ways per_way (build_way base stride ways per_way wi b)

-- `none` is the return value -1; `alloc` says whether `malloc` gives the scratch array.
unfoldable pub build_chases : Bool → ℕ → ℕ → ℕ → ℕ → ℕ → Memory → Option Built
unfolding build_ways
build_chases alloc base nbytes stride ways seed m =
    let nodes = nbytes / stride in
    let per_way = nodes / ways in
    if ltb per_way 2
    then none
    else if not alloc
    then none
    else let s = if seed == 0 then 0x243F6A8885A308D3 else seed in
      some (build_ways ways 0 base stride ways per_way (record { memory = m; heads = []; rng = s }))
