-- ===== src/Emit/Rows.antt =====
-- What a row of a result document of bench/src/bench.c is read as.
use cross_platform_benchmark.Prelude.{
  ◌≡◌, refl, subst, true, not, List, [], ◌∷◌, ◌++◌, Bytes, codes, if◌then◌else◌, if-cases, decimal,
  ℤ, pos, negsuc, map, append-nil,
}
use cross_platform_benchmark.Score.{
  Double, Result, DispStatus, disp_na, disp_ok, disp_none, MhzSrc, mhz_read, mhz_given, mhz_rated,
  mhz_estimated, is_positive,
}
use cross_platform_benchmark.Emit.{Show, mhz_src_name}
use cross_platform_benchmark.Emit.Json.{
  j_str, j_cpu, json_result, is_ok, is_na, prediction, json_rows,
}
use cross_platform_benchmark.Emit.Lexer.{Token, punct, Reads}
use cross_platform_benchmark.Emit.Written.{
  member, object, items, string, literal, IsWord, Prints, Writes, Rest, Prints-append, Prints-call,
  kept, close_object, is_plain_text, Writes-then, j_str-Writes, word-Writes, number, j_num-Writes,
  decimal-IsWord,
}

module _ {D : Type 0} (F : Double D) (show : Show D) where
  abbrev clock_source : Result D → Bytes
  clock_source r = if is_positive F r.mhz then mhz_src_name r.mhz_src else codes "unknown"

  abbrev pub cpu_value : ℤ → List Token
  cpu_value (pos n) = literal (decimal n)
  cpu_value (negsuc n) = literal (codes "null")

  -- A row as an object.
  abbrev pub row : Bytes → Result D → List Token
  row scope r =
      object (codes "scope", string scope)
        ((codes "cpu", cpu_value r.cpu)
          ∷ (codes "mhz", number F show r.mhz true)
          ∷ (codes "mhz_src", string (clock_source r))
          ∷ (codes "int_lat_mops", number F show r.int_lat true)
          ∷ (codes "int_thr_mops", number F show r.int_thr true)
          ∷ (codes "ilp", number F show r.ilp true)
          ∷ (codes "mul_thr_mmul_s", number F show r.mul_thr true)
          ∷ (codes "fp_lat_mflops", number F show r.fp_lat true)
          ∷ (codes "fp_thr_mflops", number F show r.fp_thr true)
          ∷ (codes "filp", number F show r.filp true)
          ∷ (codes "mem_gbps", number F show r.mem_gbps true)
          ∷ (codes "mem_lat_ns", number F show r.mem_lat_ns true)
          ∷ (codes "mem_lat8_ns", number F show r.mem_lat8_ns true)
          ∷ (codes "mlp", number F show r.mlp true)
          ∷ (codes "disp_thr_mcall_s", number F show r.disp_thr true)
          ∷ (codes "disp_cap_calls", number F show r.disp_cap (is_ok r.disp_status))
          ∷ (codes "disp_prediction", string (prediction r.disp_status))
          ∷ (codes "disp_gain", number F show r.disp_gain true)
          ∷ (codes "disp_span", number F show r.disp_span (not (is_na r.disp_status)))
          ∷ (codes "score", number F show r.score true)
          ∷ [])

module _ {D : Type 0} (F : Double D) (show : Show D) (six : (v : D) → IsWord (show.six v)) where
  j_cpu-Writes : (cpu : ℤ) → Writes (j_cpu F show cpu) ((codes "cpu", cpu_value F show cpu) ∷ [])
  j_cpu-Writes (pos n) = word-Writes (codes "cpu") (decimal n) refl (decimal-IsWord n)
  j_cpu-Writes (negsuc n) =
      word-Writes (codes "cpu") (codes "null") refl (refl, (refl, (refl, (refl, tt))))

  mhz_src_name-kept : (src : MhzSrc) → kept (mhz_src_name src) ≡ mhz_src_name src
  mhz_src_name-kept mhz_read = refl
  mhz_src_name-kept mhz_given = refl
  mhz_src_name-kept mhz_rated = refl
  mhz_src_name-kept mhz_estimated = refl

  clock_source-kept : (r : Result D) → kept (clock_source F show r) ≡ clock_source F show r
  clock_source-kept r =
      if-cases (λ s. kept s ≡ s) (is_positive F r.mhz) (λ _. mhz_src_name-kept r.mhz_src)
        (λ _. refl)

  prediction-kept : (status : DispStatus) → kept (prediction status) ≡ prediction status
  prediction-kept disp_ok = refl
  prediction-kept disp_na = refl
  prediction-kept disp_none = refl

  -- A string that has no control characters.
  pub name-Writes :
      (key v : Bytes)
      → is_plain_text key ≡ true
      → kept v ≡ v
      → Writes (j_str key v) ((key, string v) ∷ [])
  name-Writes key v h e =
      subst (λ s. Writes (j_str key v) ((key, string s) ∷ [])) e (j_str-Writes key v h)

  -- What the opening call of a row is read as.
  abbrev pub Opens : Bytes → Bytes → Type 0
  Opens scope indent =
      Reads (indent ++ (codes "{ \"scope\": \"" ++ (scope ++ codes "\"")))
        (punct b'{' ∷ member (codes "scope", string scope))

  pub json_result-Prints :
      (r : Result D) (scope indent : Bytes)
      → Opens scope indent
      → Prints (json_result F show r scope indent) (row F show scope r)
  unfolding json_result
  json_result-Prints r scope indent open_row =
      let rest : Rest _ _ (punct b'}' ∷ []) = Writes-then (j_cpu-Writes r.cpu) (
        Writes-then (j_num-Writes F show six (codes "mhz") r.mhz true refl) (
          Writes-then
            (name-Writes (codes "mhz_src") (clock_source F show r) refl (clock_source-kept r))
            (Writes-then (j_num-Writes F show six (codes "int_lat_mops") r.int_lat true refl) (
              Writes-then (j_num-Writes F show six (codes "int_thr_mops") r.int_thr true refl) (
                Writes-then (j_num-Writes F show six (codes "ilp") r.ilp true refl) (
                  Writes-then (j_num-Writes F show six (codes "mul_thr_mmul_s") r.mul_thr true refl)
                    (Writes-then
                      (j_num-Writes F show six (codes "fp_lat_mflops") r.fp_lat true refl)
                      (Writes-then
                        (j_num-Writes F show six (codes "fp_thr_mflops") r.fp_thr true refl)
                        (Writes-then (j_num-Writes F show six (codes "filp") r.filp true refl) (
                          Writes-then
                            (j_num-Writes F show six (codes "mem_gbps") r.mem_gbps true refl)
                            (Writes-then
                              (j_num-Writes F show six (codes "mem_lat_ns") r.mem_lat_ns true refl)
                              (Writes-then
                                (j_num-Writes F show six (codes "mem_lat8_ns") r.mem_lat8_ns true
                                  refl)
                                (Writes-then (j_num-Writes F show six (codes "mlp") r.mlp true refl)
                                  (Writes-then
                                    (j_num-Writes F show six (codes "disp_thr_mcall_s") r.disp_thr
                                      true refl)
                                    (Writes-then
                                      (j_num-Writes F show six (codes "disp_cap_calls") r.disp_cap
                                        (is_ok r.disp_status) refl)
                                      (Writes-then
                                        (name-Writes (codes "disp_prediction")
                                          (prediction r.disp_status) refl
                                          (prediction-kept r.disp_status))
                                        (Writes-then
                                          (j_num-Writes F show six (codes "disp_gain") r.disp_gain
                                            true refl)
                                          (Writes-then
                                            (j_num-Writes F show six (codes "disp_span") r.disp_span
                                              (not (is_na r.disp_status)) refl)
                                            (Writes-then
                                              (j_num-Writes F show six (codes "score") r.score true
                                                refl)
                                              (close_object)))))))))))))))))))) in
      Prints-append (Prints-call open_row) rest.prints

  separator_row : Reads (codes "\n") []
  separator_row = record { apart = refl; read = λ ts. refl }

  separator_comma : Reads (codes ",\n") (punct b',' ∷ [])
  separator_comma = record { apart = refl; read = λ ts. refl }

  -- The rows of an array, each indented and the last without a comma.
  pub json_rows-Prints :
      (rs : List (Result D)) (scope : Bytes)
      → Opens scope (codes "    ")
      → Prints (json_rows F show rs scope) (items (map (row F show scope) rs))
  json_rows-Prints [] scope h = record { reads = record { apart = tt; read = λ ts. refl } }
  json_rows-Prints (r ∷ []) scope h =
      let end = Prints-call separator_row in
      subst (λ t. Prints (json_rows F show (r ∷ []) scope) t) (append-nil (row F show scope r))
        (Prints-append (json_result-Prints r scope (codes "    ") h) end)
  json_rows-Prints (r ∷ r' ∷ rs) scope h =
      let rest = json_rows-Prints (r' ∷ rs) scope h in
      Prints-append (json_result-Prints r scope (codes "    ") h)
        (Prints-append (Prints-call separator_comma) rest)
