-- ===== src/Options/Tests.antt =====
-- Runs of the option parser, and the theorems at such inputs.
use wandio.Base.{
  ℕ, ◌≡◌, refl, ◌++◌, [], none, some, true, false, ◌∷◌, zero, suc, replicate, ℤ, pos, Bytes, codes,
  arith,
}
use wandio.Options.{initial, do_option, parse_env}
use wandio.Options.Parse.{apply_all, parse_env-apply_all, NoComma, parse_env_overrun}

-- reads "4" and nothing else
abbrev atoi_4 : Bytes → ℤ
atoi_4 _ = pos 4

abbrev stats_and_threads : Bytes
stats_and_threads = codes "stats,threads=4,,noautodetect"

parse_run :
    parse_env atoi_4 initial (some stats_and_threads)
    ≡ some (record initial { keep_stats = true; use_threads = 4; use_autodetect = false })
unfolding parse_env do_option
parse_run = refl

parse_env-apply_all_example :
    parse_env atoi_4 initial (some stats_and_threads)
    ≡ some (
        apply_all atoi_4 initial
          (codes "stats" ∷ codes "threads=4" ∷ [] ∷ codes "noautodetect" ∷ []))
parse_env-apply_all_example = parse_env-apply_all atoi_4 initial stats_and_threads (omega arith)

abbrev long_text : Bytes
long_text = replicate 1024 b'x'

NoComma-replicate : (n : ℕ) → NoComma (replicate n b'x')
NoComma-replicate zero = tt
NoComma-replicate (suc n) = (omega arith, NoComma-replicate n)

parse_env_overrun_example : parse_env atoi_4 initial (some (long_text ++ codes ",stats")) ≡ none
parse_env_overrun_example =
    parse_env_overrun atoi_4 initial long_text (codes ",stats") (NoComma-replicate 1024)
      (omega arith)
