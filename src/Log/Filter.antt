-- ===== src/Log/Filter.antt =====
-- The log as a filter on the level of each call.
use a_simple_rpc.Prelude.{
  ℕ, zero, suc, ◌≡◌, refl, Bool, true, false, ◌||◌, List, [], ◌∷◌, ◌++◌, leb, if◌then◌else◌, arith,
}
use a_simple_rpc.Prelude.Bytes.{Text, codes}
use a_simple_rpc.Prelude.Int.{ℤ}
use a_simple_rpc.Log.{
  OutputFn, output, drop_output_fn, Format, at_most, effective_level, fill_levels,
  new_default_logger, Ending, returns, exits, panics, header, call_fn, out_at, debug, debugf, info,
  infof, warn, warnf, error, errorf, fatal, fatalf, panic, panicf, LogCall, debugs, infos, warns,
  errors, fatals, panics_with, debugs_f, infos_f, warns_f, errors_f, fatals_f, panics_f, log_call,
  further, run,
}

abbrev pub level_of : {A : Type 0} → LogCall A → ℕ
level_of (debugs v) = 5
level_of (debugs_f s v) = 5
level_of (infos v) = 4
level_of (infos_f s v) = 4
level_of (warns v) = 3
level_of (warns_f s v) = 3
level_of (errors v) = 2
level_of (errors_f s v) = 2
level_of (fatals v) = 1
level_of (fatals_f s v) = 1
level_of (panics_with v) = 0
level_of (panics_f s v) = 0

abbrev pub name_of : ℕ → Text
name_of zero = codes "PANIC"
name_of (suc zero) = codes "FATAL"
name_of (suc (suc zero)) = codes "ERROR"
name_of (suc (suc (suc zero))) = codes "WARN"
name_of (suc (suc (suc (suc zero)))) = codes "INFO"
name_of (suc (suc (suc (suc (suc n))))) = codes "DEBUG"

abbrev pub is_written : ℤ → ℕ → Bool
is_written level i = leb i 1 || at_most i level

abbrev pub end_of : Text → ℕ → Ending
end_of s zero = panics s
end_of s (suc zero) = exits 1
end_of s (suc (suc n)) = returns

-- The calls up to the first of level Fatal or Panic.
abbrev pub reached : {A : Type 0} → List (LogCall A) → List (LogCall A)
reached [] = []
reached (q ∷ qs) = q ∷ (if leb (level_of q) 1 then [] else reached qs)

module _ {A : Type 0} (f : Format A) where
  abbrev pub text_of : LogCall A → Text
  text_of (debugs v) = f.sprint v
  text_of (debugs_f s v) = f.sprintf s v
  text_of (infos v) = f.sprint v
  text_of (infos_f s v) = f.sprintf s v
  text_of (warns v) = f.sprint v
  text_of (warns_f s v) = f.sprintf s v
  text_of (errors v) = f.sprint v
  text_of (errors_f s v) = f.sprintf s v
  text_of (fatals v) = f.sprint v
  text_of (fatals_f s v) = f.sprintf s v
  text_of (panics_with v) = f.sprint v
  text_of (panics_f s v) = f.sprintf s v

  abbrev pub line_of : LogCall A → Text
  line_of q = name_of (level_of q) ++ (codes ": " ++ text_of q)

  -- The lines of the calls that the level lets through.
  abbrev pub lines_of : ℤ → List (LogCall A) → List Text
  lines_of level [] = []
  lines_of level (q ∷ qs) =
      if is_written level (level_of q) then line_of q ∷ lines_of level qs else lines_of level qs

  -- How the first call of level Fatal or Panic ends, if there is one.
  abbrev pub ending_of : List (LogCall A) → Ending
  ending_of [] = returns
  ending_of (q ∷ qs) = if leb (level_of q) 1 then end_of (text_of q) (level_of q) else ending_of qs

  abbrev one_line : ℤ → LogCall A → List Text
  one_line level q = if is_written level (level_of q) then line_of q ∷ [] else []

call_fn-if :
    (b : Bool) (s : Text) (e : Ending)
    → call_fn (if b then output else drop_output_fn) s e ≡ (if b then s ∷ [] else [], e)
call_fn-if true s e = refl
call_fn-if false s e = refl

further-end_of :
    (l : ℕ) (s : Text) (ls : List Text) (r : List Text × Ending)
    → further (ls, end_of s l) r ≡ (if leb l 1 then (ls, end_of s l) else (ls ++ r.0, r.1))
further-end_of zero s ls r = refl
further-end_of (suc zero) s ls r = refl
further-end_of (suc (suc l)) s ls r = ground arith

module _ {A : Type 0} (f : Format A) (env : Text) (lv : ℤ) where
  abbrev level : ℤ
  level = effective_level f env lv

  abbrev out : List OutputFn
  out = new_default_logger f env lv

  log_call-one_line :
      (q : LogCall A) → log_call f out q ≡ (one_line f level q, end_of (text_of f q) (level_of q))
  unfolding log_call debug debugf info infof warn warnf error errorf fatal fatalf panic panicf
      out_at header new_default_logger fill_levels
  log_call-one_line (debugs v) = call_fn-if (at_most 5 level) _ _
  log_call-one_line (debugs_f s v) = call_fn-if (at_most 5 level) _ _
  log_call-one_line (infos v) = call_fn-if (at_most 4 level) _ _
  log_call-one_line (infos_f s v) = call_fn-if (at_most 4 level) _ _
  log_call-one_line (warns v) = call_fn-if (at_most 3 level) _ _
  log_call-one_line (warns_f s v) = call_fn-if (at_most 3 level) _ _
  log_call-one_line (errors v) = call_fn-if (at_most 2 level) _ _
  log_call-one_line (errors_f s v) = call_fn-if (at_most 2 level) _ _
  log_call-one_line (fatals v) = refl
  log_call-one_line (fatals_f s v) = refl
  log_call-one_line (panics_with v) = refl
  log_call-one_line (panics_f s v) = refl

  -- The first call, when it ends the sequence (`b`) or is written (`w`), before the others.
  lines_of-reached :
      (b w : Bool) (line : Text) (e e' : Ending) (qs : List (LogCall A))
      → ◌≡◌ {A = List Text × Ending}
          (if b
            then (if w then line ∷ [] else [], e)
            else ((if w then line ∷ [] else []) ++ lines_of f level (reached qs), e'))
          (
            if w
                then line ∷ lines_of f level (if b then [] else reached qs)
                else lines_of f level (if b then [] else reached qs),
            if b then e else e',
          )
  lines_of-reached true true line e e' qs = refl
  lines_of-reached true false line e e' qs = refl
  lines_of-reached false true line e e' qs = refl
  lines_of-reached false false line e e' qs = refl

  -- A sequence of calls on a new logger writes, in order, the lines of the calls up to the first Fatal
  -- or Panic whose level is at most that of the logger (the one in the environment, if it is a number),
  -- and those of Fatal and Panic whatever the level; it ends as that first Fatal or Panic does.
  pub run-lines_of :
      (qs : List (LogCall A)) → run f out qs ≡ (lines_of f level (reached qs), ending_of f qs)
  unfolding run
  run-lines_of [] = refl
  run-lines_of (q ∷ qs) =
      rw
        (
          log_call-one_line q,
          run-lines_of qs,
          further-end_of (level_of q) (text_of f q) (one_line f level q)
              (lines_of f level (reached qs), ending_of f qs),
        )
        (lines_of-reached _ _ _ _ _ qs)
