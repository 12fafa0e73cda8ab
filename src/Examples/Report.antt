-- ===== src/Examples/Report.antt =====
-- The theorems on the options, the processors' names and the scores, at concrete inputs.
use cross_platform_benchmark.Prelude.{
  ℕ, ◌+◌, ◌-◌, ◌*◌, ◌/◌, ◌^◌, ◌≤◌, ◌≡◌, true, false, List, [], ◌∷◌, ◌++◌, Option, some, Bytes,
  codes, length, arith, ltb, leb, ◌==◌, ℤ, pos, replicate,
}
use cross_platform_benchmark.Score.{Double, Worker, Result, summarize}
use cross_platform_benchmark.Cpu.{parse_cpu_list}
use cross_platform_benchmark.Cpu.Ids.{OnSome, parse_cpu_list-length}
use cross_platform_benchmark.Variants.{variants, select_variants}
use cross_platform_benchmark.Variants.Selection.{OnSelected, select_variants_lem}
use cross_platform_benchmark.Args.{working_sets}
use cross_platform_benchmark.Args.Settled.{IsPaged, working_sets-IsPaged}

abbrev pub numbers : Double ℕ
numbers = record {
  literal = λ n k. n;
  add = λ a b. a + b;
  sub = λ a b. a - b;
  mul = λ a b. a * b;
  div = λ a b. a / b;
  lt = ltb;
  le = leb;
  eq = λ a b. a == b;
  log = λ a. a;
  exp = λ a. a;
  pow = λ a b. a ^ b;
}

abbrev pub measured : Worker ℕ
measured = record {
  cpu = pos 1;
  checksum = 77;
  int_lat_mops = 10;
  int_thr_mops = 40;
  mul_thr_mops = 20;
  fp_lat_mflops = 5;
  fp_thr_mflops = 50;
  mem_gbps = 7;
  mem_lat_ns = 90;
  mem_mlp_ns = 30;
  disp_ladder = replicate 13 400 ++ (1 ∷ []);
  mhz_observed = 0;
  dram_mhz_observed = 0;
}

abbrev no_clock : ℤ → ℕ
no_clock cpu = 0

abbrev pub two_rows : List (Result ℕ)
two_rows =
    summarize numbers 0 no_clock no_clock measured (pos 1)
    ∷ summarize numbers 2400 no_clock no_clock measured (pos 2)
    ∷ []

times_one : (x : ℕ) → 1 * x ≡ x
times_one x = omega arith

parse_cpu_list-length_example :
    OnSome (λ ids. length ids ≤ 1024) (parse_cpu_list (codes "0-3,6,8-11") 1024)
parse_cpu_list-length_example = parse_cpu_list-length (codes "0-3,6,8-11") 1024

abbrev rock : Option Bytes
rock = some (codes "Radxa  ROCK 5B ")

working_sets-IsPaged_example :
    let sizes = working_sets 16777216 0 3 false 5000000 in IsPaged sizes.0 × IsPaged sizes.1
working_sets-IsPaged_example = working_sets-IsPaged 16777216 0 3 false 5000000

abbrev two_names : Bytes
two_names = codes "scalar-fma,vector-fma"

select_variants_lem_example :
    OnSelected (variants true true) 0 (select_variants (variants true true) (some two_names))
select_variants_lem_example = select_variants_lem (variants true true) (some two_names)
