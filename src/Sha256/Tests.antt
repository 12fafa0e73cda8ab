-- ===== src/Sha256/Tests.antt =====
-- Runs of the digest on known inputs.
use cross_platform_benchmark.Prelude.{[], ◌∷◌, ◌≡◌, refl, some, true, false, codes, replicate}
use cross_platform_benchmark.Sha256.{
  Ctx, compress, ror, word_at, load_words, schedule, round, rounds, update, final, file_digest,
  FileDigest,
}

abbrev garbage : Ctx
garbage = record { h = []; bytes = 7; buf = replicate 64 99; used = 3 }

abbrev abc_hex : FileDigest
abc_hex = record {
  ok = true;
  hex = codes "ba7816bf8f01cfea414140de5dae2223b00361a396177a9cb410ff61f20015ad";
}

file_digest_abc :
    file_digest garbage (some (record { reads = codes "a" ∷ codes "bc" ∷ []; error = false }))
    ≡ some abc_hex
unfolding file_digest final update compress ror word_at load_words schedule round rounds
file_digest_abc = refl
