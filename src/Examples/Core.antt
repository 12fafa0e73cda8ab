-- ===== src/Examples/Core.antt =====
-- The theorems on the digest, the kernels and the timed driver, at concrete inputs.
use cross_platform_benchmark.Prelude.{
  ℕ, ◌+◌, ◌-◌, ◌*◌, ◌%◌, ◌/◌, ◌^◌, ◌<◌, ◌≡◌, ◌≢◌, refl, true, false, List, [], ◌∷◌, ◌++◌, some,
  Bytes, codes, length, replicate, get_or, All, arith, ltb, leb, ◌==◌,
}
use cross_platform_benchmark.Sha256.{Ctx, Stream, file_digest, update, ◌>>=◌}
use cross_platform_benchmark.Sha256.Feed.{IsReady, update-append}
use cross_platform_benchmark.Sha256.Digest.{content}
use cross_platform_benchmark.Sha256.Standard.{hex_text, standard_hash}
use cross_platform_benchmark.Sha256.Standard.Agrees.{file_digest-standard}
use cross_platform_benchmark.Chase.{Built, build_chases}
use cross_platform_benchmark.Kernels.{
  IntCtx, MulCtx, FpCtx, int_kernel_thr, mul_kernel_thr, disp_kernel,
}
use cross_platform_benchmark.Kernels.Compute.{int_kernel_thr-injective, mul_kernel_thr-IsOdd, IsOdd}
use cross_platform_benchmark.Kernels.Memory.{build_chases-mem_kernel_lat, chase_at}
use cross_platform_benchmark.Kernels.Dispatch.{disp_kernel_lem, targets, chain}
use cross_platform_benchmark.Score.{Double}
use cross_platform_benchmark.Timed.{Timed, run_timed}
use cross_platform_benchmark.Kernels.{DispCtx, disp_kernel_free}
use cross_platform_benchmark.Worker.{in_batches, iterations}
use cross_platform_benchmark.Timed.Batches.{IsBatch, run_timed-batches}
use cross_platform_benchmark.Timed.Exact.{run_timed-IsExact, IsExact}

abbrev blank : Ctx
blank = record { h = []; bytes = 7; buf = replicate 64 99; used = 3 }

abbrev cut_abc : Stream
cut_abc = record { reads = codes "a" ∷ codes "bc" ∷ []; error = false }

file_digest-standard_example :
    file_digest blank (some cut_abc)
    ≡ some (record { ok = true; hex = hex_text (standard_hash (content cut_abc.reads)) })
file_digest-standard_example = file_digest-standard blank cut_abc refl refl

abbrev fed : Ctx
fed = record { h = 1 ∷ 2 ∷ []; bytes = 70; buf = replicate 64 0; used = 6 }

fed-IsReady : IsReady fed
fed-IsReady = record { whole = refl; room = omega arith }

update-append_example :
    (update fed (codes "ab") >>= λ c'. update c' (codes "cde"))
    ≡ update fed (codes "ab" ++ codes "cde")
update-append_example = update-append fed (codes "ab") (codes "cde") fed-IsReady

abbrev no_memory : ℕ → ℕ
no_memory a = 0

-- 8 nodes of 64 bytes, two ways.
build_chases-mem_kernel_lat_example :
    (b : Built) × (build_chases true 4096 512 64 2 1 no_memory ≡ some b)
    × (length b.heads ≡ 2)
    × ((w : ℕ)
        → w < 2
        → let head = get_or b.heads w 0 in
          ((k l : ℕ)
            → k < 4
            → l < 4
            → chase_at b.memory head [] k ≡ chase_at b.memory head [] l
            → k ≡ l)
          × (chase_at b.memory head [] 4 ≡ head)
          × ((k : ℕ) → (q : ℕ) × (q < 4) × (chase_at b.memory head [] k ≡ 4096 + (q * 2 + w) * 64)))
build_chases-mem_kernel_lat_example =
    build_chases-mem_kernel_lat 4096 512 64 2 1 no_memory [] (omega arith) (omega arith)
      (omega arith) (omega arith)

abbrev ints : IntCtx
ints = record {
  l = 1 ∷ 2 ∷ 3 ∷ 4 ∷ 5 ∷ 6 ∷ 7 ∷ 8 ∷ [];
  k = 0x9E3779B97F4A7C15 ∷ 0xBF58476D1CE4E5B9 ∷ [];
}

one-two : ◌≢◌ {A = ℕ} 1 2
one-two = omega arith

int_kernel_thr-injective_example :
    get_or (int_kernel_thr ints 100).l 0 0 ≢ get_or (int_kernel_thr ints 100).l 1 0
int_kernel_thr-injective_example =
    int_kernel_thr-injective ints 100 0 1 (omega arith) (omega arith) (omega arith) (omega arith)
      (omega arith) (omega arith) one-two

abbrev muls : MulCtx
muls = record { l = 1 ∷ 3 ∷ []; m = 0xD1342543DE82EF95 }

mul_kernel_thr-IsOdd_example : All IsOdd (mul_kernel_thr muls 50).l
mul_kernel_thr-IsOdd_example = mul_kernel_thr-IsOdd muls 50 refl (refl, (refl, tt))

abbrev plus : ℕ → ℕ → ℕ
plus a b = a + b

abbrev times : ℕ → ℕ → ℕ
times a b = a * b

abbrev fps : FpCtx plus times 0
fps = record { x = 1 ∷ 2 ∷ []; b = 5 ∷ 6 ∷ []; c = 3 }

abbrev words : List ℕ
words = 10 ∷ 20 ∷ 30 ∷ 40 ∷ 50 ∷ []

abbrev selectors : Bytes
selectors = 0 ∷ 3 ∷ 2 ∷ 1 ∷ []

disp_kernel_lem_example :
    let d = disp_kernel (record { idx = selectors; mask = 2 ^ 2 - 1; pos = 1; acc = 9 }) 6 in
    (d.acc ≡ chain (targets selectors (2 ^ 2) 6 1) 9) × (d.pos ≡ (1 + 6) % 2 ^ 2)
disp_kernel_lem_example = disp_kernel_lem 2 6 1 9 selectors (omega arith)

abbrev counts : Double ℕ
counts = record {
  literal = λ n k. n;
  add = λ a b. a + b;
  sub = λ a b. a - b;
  mul = λ a b. a * b;
  div = λ a b. a / b;
  lt = ltb;
  le = leb;
  eq = λ a b. a == b;
  log = λ a. a;
  exp = λ a. a;
  pow = λ a b. a ^ b;
}

-- A kernel that counts its iterations, and a clock that ticks at every reading.
abbrev counting : ℕ → ℕ → ℕ
counting s n = s + n

abbrev ticking : ℕ → ℕ
ticking k = k * 10

counting_add : (s a b : ℕ) → counting (counting s a) b ≡ counting s (a + b)
counting_add s a b = omega arith

counting_zero : (s : ℕ) → counting s 0 ≡ s
counting_zero s = omega arith

run_timed-IsExact_example :
    (r : Timed ℕ ℕ) × (run_timed counts counting ticking 10 5 40 1 ≡ some r)
    × IsExact counts counting ticking 5 r.ctx r.iters
run_timed-IsExact_example =
    run_timed-IsExact counts counting ticking counting_add counting_zero 10 6 5 40 1 refl
      (omega arith)

abbrev free_ctx : DispCtx
free_ctx = record { idx = 3 ∷ 1 ∷ 2 ∷ 0 ∷ []; mask = 3; pos = 0; acc = 1 }

run_timed-batches_example :
    (r : Timed DispCtx ℕ) × (bs : List ℕ) × (run_timed counts disp_kernel_free ticking 10 free_ctx
        40 1
      ≡ some r)
    × All IsBatch bs
    × (r.ctx ≡ in_batches disp_kernel_free free_ctx bs)
    × (r.iters ≡ iterations bs)
run_timed-batches_example =
    run_timed-batches counts disp_kernel_free ticking 10 6 free_ctx 40 1 (omega arith) refl
      (omega arith)
