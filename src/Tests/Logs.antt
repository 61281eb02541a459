-- ===== src/Tests/Logs.antt =====
-- log/: a logger whose level comes from the environment.
use a_simple_rpc.Prelude.{ℕ, ◌≡◌, [], ◌∷◌, some, bytes_eq}
use a_simple_rpc.Prelude.Bytes.{codes}
use a_simple_rpc.Prelude.Int.{pos}
use a_simple_rpc.Log.{
  Format, package_logger, exits, debugs, warns, fatals, infos_f, run, at_most, effective_level,
}
use a_simple_rpc.Log.Filter.{run-lines_of}

abbrev numbers : Format ℕ
numbers = record { sprint = λ v. v; sprintf = λ format v. format; atoi = λ s. some (pos 3) }

-- The environment says 3: `Warn` is written, `Info` and `Debug` are not.
run-lines_of_example :
    run numbers
      (package_logger numbers (codes "3"))
      (warns (65 ∷ []) ∷ infos_f (codes "x") [] ∷ debugs [] ∷ fatals [] ∷ warns [] ∷ [])
    ≡ (codes "WARN: A" ∷ codes "FATAL: " ∷ [], exits 1)
unfolding at_most effective_level bytes_eq
run-lines_of_example =
    run-lines_of numbers (codes "3") (pos 2)
      (warns (65 ∷ []) ∷ infos_f (codes "x") [] ∷ debugs [] ∷ fatals [] ∷ warns [] ∷ [])
