-- ===== src/Emit/Tsv/Columns.antt =====
-- The columns of the TSV result of bench/src/bench.c.
use cross_platform_benchmark.Prelude.{
  ℕ, zero, suc, ◌+◌, ◌≡◌, ◌≤◌, refl, ap, ◌∙◌, sym, subst, Bool, true, false, not, ◌&&◌, List, [],
  ◌∷◌, ◌++◌, Bytes, codes, append_assoc, append-nil, replicate, take, ◌==◌, if◌then◌else◌, if-cases,
  length, All, arith, decimal, decimal_digits_lem, ℤ, pos, negsuc,
}
use cross_platform_benchmark.Score.{
  Double, Result, is_positive, MhzSrc, mhz_read, mhz_given, mhz_rated, mhz_estimated,
}
use cross_platform_benchmark.Score.Suite.{Suite}
use cross_platform_benchmark.Emit.{Show, mhz_src_name, concat}
use cross_platform_benchmark.Emit.Json.{is_ok, is_na}
use cross_platform_benchmark.Emit.Written.{concat-append}
use cross_platform_benchmark.Emit.Tsv.{
  result_columns, tsv_num, tsv_cpu, tsv_result, tsv_rows, emit_tsv,
}

-- The tabs of every line, with `k` of them in the line so far.
abbrev pub widths : ℕ → Bytes → List ℕ
widths k [] = []
widths k (c ∷ s) =
    if c == 10 then k ∷ widths 0 s else if c == 9 then widths (suc k) s else widths k s

-- A text that stays within one cell.
abbrev pub IsCell : Bytes → Type 0
IsCell s = All (λ c. ((c == 9) ≡ false) × ((c == 10) ≡ false)) s

widths-IsCell : (s rest : Bytes) (k : ℕ) → IsCell s → widths k (s ++ rest) ≡ widths k rest
widths-IsCell [] rest k h = refl
widths-IsCell (c ∷ s) rest k ((tab, end), hs) = rw (end, tab) (widths-IsCell s rest k hs)

-- A call that adds one tab to its line.
record IsTabbed (p : Bytes) : Type 0 where
  adds : (k : ℕ) (rest : Bytes) → widths k (p ++ rest) ≡ widths (suc k) rest

tab-IsTabbed : (s : Bytes) → IsCell s → IsTabbed (9 ∷ s)
tab-IsTabbed s h = record { adds = λ k rest. widths-IsCell s rest (suc k) h }

pieces-widths :
    (ps : List Bytes) (k : ℕ) (rest : Bytes)
    → All IsTabbed ps
    → widths k (concat ps ++ rest) ≡ widths (k + length ps) rest
pieces-widths [] k rest h = ap (λ n. widths n rest) (omega arith)
pieces-widths (p ∷ ps) k rest (t, h) =
    ap (widths k) (append_assoc p (concat ps) rest)
    ∙ t.adds k (concat ps ++ rest)
    ∙ pieces-widths ps (suc k) rest h
    ∙ ap (λ n. widths n rest) (omega arith)

-- The calls print so many lines, each of 20 tabs.
record Lines (n : ℕ) (ps : List Bytes) : Type 0 where
  prints : (rest : Bytes) → widths 0 (concat ps ++ rest) ≡ replicate n 20 ++ widths 0 rest

replicate_add :
    (m n : ℕ) (rest : List ℕ)
    → replicate m 20 ++ (replicate n 20 ++ rest) ≡ replicate (m + n) 20 ++ rest
replicate_add zero n rest = let e : n ≡ 0 + n = omega arith in ap (λ k. replicate k 20 ++ rest) e
replicate_add (suc m) n rest =
    let e : suc (m + n) ≡ suc m + n = omega arith in
    ap (λ t. 20 ∷ t) (replicate_add m n rest) ∙ ap (λ k. replicate k 20 ++ rest) e

Lines-append : {m n : ℕ} {ps qs : List Bytes} → Lines m ps → Lines n qs → Lines (m + n) (ps ++ qs)
Lines-append {m} {n} {ps} {qs} x y = record {
  prints = λ rest.
      ap (λ t. widths 0 (t ++ rest)) (concat-append ps qs)
      ∙ ap (widths 0) (append_assoc (concat ps) (concat qs) rest)
      ∙ x.prints (concat qs ++ rest)
      ∙ ap (λ t. replicate m 20 ++ t) (y.prints rest)
      ∙ replicate_add m n (widths 0 rest);
}

no_Lines : Lines 0 []
no_Lines = record { prints = λ rest. refl }

digits-IsCell : (s : Bytes) → All (λ c. (b'0' ≤ c) × (c ≤ b'9')) s → IsCell s
digits-IsCell [] h = tt
digits-IsCell (c ∷ s) ((lo, hi), hs) = ((ground arith, ground arith), digits-IsCell s hs)

pub decimal-IsCell : (n : ℕ) → IsCell (decimal n)
decimal-IsCell n = digits-IsCell (decimal n) (decimal_digits_lem n)

tsv_cpu-IsTabbed :
    {D : Type 0} (F : Double D) (show : Show D) (cpu : ℤ) → IsTabbed (tsv_cpu F show cpu)
tsv_cpu-IsTabbed F show (pos n) = tab-IsTabbed (decimal n) (decimal-IsCell n)
tsv_cpu-IsTabbed F show (negsuc n) = record { adds = λ k rest. refl }

mhz_src_name-IsTabbed : (src : MhzSrc) → IsTabbed (9 ∷ mhz_src_name src)
mhz_src_name-IsTabbed mhz_read = record { adds = λ k rest. refl }
mhz_src_name-IsTabbed mhz_given = record { adds = λ k rest. refl }
mhz_src_name-IsTabbed mhz_rated = record { adds = λ k rest. refl }
mhz_src_name-IsTabbed mhz_estimated = record { adds = λ k rest. refl }

result_columns-Lines : Lines 1 (result_columns ∷ [])
result_columns-Lines = record { prints = λ rest. refl }

module _ {D : Type 0} (F : Double D) (show : Show D) (six : (v : D) → IsCell (show.six v)) where
  tsv_num-IsTabbed : (v : D) (ok : Bool) → IsTabbed (tsv_num F show v ok)
  unfolding tsv_num
  tsv_num-IsTabbed v ok =
      if-cases IsTabbed (ok && is_positive F v) (λ _. tab-IsTabbed (show.six v) (six v))
        (λ _. record { adds = λ k rest. refl })

  source-IsTabbed :
      (r : Result D)
      → IsTabbed (9 ∷ (if is_positive F r.mhz then mhz_src_name r.mhz_src else codes "unknown"))
  source-IsTabbed r =
      if-cases (λ x. IsTabbed (9 ∷ x)) (is_positive F r.mhz) (λ _. mhz_src_name-IsTabbed r.mhz_src)
        (λ _. record { adds = λ k rest. refl })

  first-IsTabbed :
      (variant scope : Bytes) → IsCell variant → IsCell scope → IsTabbed (variant ++ (9 ∷ scope))
  first-IsTabbed variant scope hv hs = record {
    adds = λ k rest.
        ap (widths k) (append_assoc variant (9 ∷ scope) rest)
        ∙ widths-IsCell variant (9 ∷ (scope ++ rest)) k hv
        ∙ widths-IsCell scope rest (suc k) hs;
  }

  tsv_result-Lines :
      (variant scope : Bytes) (r : Result D)
      → IsCell variant
      → IsCell scope
      → Lines 1 (tsv_result F show variant scope r)
  unfolding tsv_result
  tsv_result-Lines variant scope r hv hs =
      let num = tsv_num-IsTabbed in
      let cells = take 20 (tsv_result F show variant scope r) in
      let all_cells : All IsTabbed cells = (
        first-IsTabbed variant scope hv hs,
        (
          tsv_cpu-IsTabbed F show r.cpu,
          (
            num r.mhz true,
            (
              source-IsTabbed r,
              (
                num r.int_lat true,
                (
                  num r.int_thr true,
                  (
                    num r.ilp true,
                    (
                      num r.mul_thr true,
                      (
                        num r.fp_lat true,
                        (
                          num r.fp_thr true,
                          (
                            num r.filp true,
                            (
                              num r.mem_gbps true,
                              (
                                num r.mem_lat_ns true,
                                (
                                  num r.mem_lat8_ns true,
                                  (
                                    num r.mlp true,
                                    (
                                      num r.disp_thr true,
                                      (
                                        num r.disp_cap (is_ok r.disp_status),
                                        (
                                          num r.disp_gain true,
                                          (
                                            num r.disp_span (not (is_na r.disp_status)),
                                            (num r.score true, tt),
                                          ),
                                        ),
                                      ),
                                    ),
                                  ),
                                ),
                              ),
                            ),
                          ),
                        ),
                      ),
                    ),
                  ),
                ),
              ),
            ),
          ),
        ),
      ) in
      record {
        prints = λ rest.
            ap (λ t. widths 0 (t ++ rest)) (concat-append cells ((10 ∷ []) ∷ []))
            ∙ ap (widths 0) (append_assoc (concat cells) (10 ∷ []) rest)
            ∙ pieces-widths cells 0 (10 ∷ rest) all_cells;
      }

  tsv_rows-Lines :
      (variant scope : Bytes) (rs : List (Result D))
      → IsCell variant
      → IsCell scope
      → Lines (length rs) (tsv_rows F show variant scope rs)
  tsv_rows-Lines variant scope [] hv hs = no_Lines
  tsv_rows-Lines variant scope (r ∷ rs) hv hs =
      subst (λ n. Lines n (tsv_rows F show variant scope (r ∷ rs))) (omega arith)
        (Lines-append (tsv_result-Lines variant scope r hv hs)
          (tsv_rows-Lines variant scope rs hv hs))

  either-Lines :
      (b : Bool) (ps : List Bytes) → Lines 1 ps → Lines (if b then 1 else 0) (if b then ps else [])
  either-Lines true ps h = h
  either-Lines false ps h = no_Lines

  -- When a value prints within one cell and the variant's name is one too, what `emit_tsv` prints has a
  -- line for the header where there is one, one for every thread, one for the total where there is one
  -- and one for every core, and every line has the 20 tabs of the header.
  pub emit_tsv-columns :
      (s : Suite D) (variant : Bytes) (first : Bool)
      → IsCell variant
      → widths 0 (concat (emit_tsv F show s variant first))
        ≡ replicate
            ((if first then 1 else 0)
              + (length s.threads + ((if s.have_threads then 1 else 0) + length s.cores)))
            20
  unfolding emit_tsv
  emit_tsv-columns s variant first hv =
      let thread : IsCell (codes "thread") = (
        (refl, refl),
        ((refl, refl), ((refl, refl), ((refl, refl), ((refl, refl), ((refl, refl), tt))))),
      ) in
      let total : IsCell (codes "total") =
        ((refl, refl), ((refl, refl), ((refl, refl), ((refl, refl), ((refl, refl), tt))))) in
      let cpu : IsCell (codes "cpu") = ((refl, refl), ((refl, refl), ((refl, refl), tt))) in
      let lines = Lines-append (either-Lines first (result_columns ∷ []) result_columns-Lines) (
        Lines-append (tsv_rows-Lines variant (codes "thread") s.threads hv thread) (
          Lines-append
            (either-Lines s.have_threads (tsv_result F show variant (codes "total") s.total)
              (tsv_result-Lines variant (codes "total") s.total hv total))
            (tsv_rows-Lines variant (codes "cpu") s.cores hv cpu))) in
      ap (widths 0) (sym (append-nil (concat (emit_tsv F show s variant first))))
      ∙ lines.prints []
      ∙ append-nil _
