-- ===== src/Log.antt =====
-- log/default_logger.go and log/logger.go: which lines of the log are written at which level. The
-- packages fmt and strconv are arguments; `log.Logger.Output` writes one line.
pub mod Filter
use a_simple_rpc.Prelude.{
  ℕ, zero, suc, ◌-◌, Bool, true, false, List, [], ◌∷◌, ◌++◌, Option, none, some, leb, if◌then◌else◌,
  set, get_or, replicate, bytes_eq,
}
use a_simple_rpc.Prelude.Bytes.{Text, codes}
use a_simple_rpc.Prelude.Int.{ℤ, pos, negsuc}

abbrev pub lv_panic : ℕ
lv_panic = 0

abbrev pub lv_fatal : ℕ
lv_fatal = 1

abbrev pub lv_error : ℕ
lv_error = 2

abbrev pub lv_warn : ℕ
lv_warn = 3

abbrev pub lv_info : ℕ
lv_info = 4

abbrev pub lv_debug : ℕ
lv_debug = 5

abbrev pub lv_max : ℕ
lv_max = 6

-- `OutputFn`: the zero value nil, `dl.Output` or `dropOutputFn`.
pub data OutputFn : Type 0 where
  nil_fn output drop_output_fn : OutputFn

-- What fmt and strconv do.
pub record Format (A : Type 0) : Type 0 where
  pub sprint : List A → Text
  pub sprintf : Text → List A → Text
  pub atoi : Text → Option ℤ

-- A `Level` is a Go int.
unfoldable pub at_most : ℕ → ℤ → Bool
at_most i (pos n) = leb i n
at_most i (negsuc n) = false

-- The level given, unless the variable of the environment has a number.
abbrev pub level_or : ℤ → Option ℤ → ℤ
level_or lv none = lv
level_or lv (some n) = n

unfoldable pub effective_level : {A : Type 0} → Format A → Text → ℤ → ℤ
effective_level f env lv = if bytes_eq env [] then lv else level_or lv (f.atoi env)

-- The loop of `NewDefaultLogger`, for `n` more levels from `i` on.
unfoldable pub fill_levels : ℕ → ℕ → ℤ → List OutputFn → List OutputFn
fill_levels zero i level out = out
fill_levels (suc n) i level out =
    fill_levels n (suc i) level (set out i (if at_most i level then output else drop_output_fn))

-- `NewDefaultLogger`: the table `out`.
unfoldable pub new_default_logger : {A : Type 0} → Format A → Text → ℤ → List OutputFn
new_default_logger f env lv =
    fill_levels (lv_max - lv_error) lv_error (effective_level f env lv)
      (set (set (replicate lv_max nil_fn) lv_panic output) lv_fatal output)

-- The logger of the package, `l`.
abbrev pub package_logger : {A : Type 0} → Format A → Text → List OutputFn
package_logger f env = new_default_logger f env (pos lv_error)

-- How a call of the log ends: it returns, the process exits, or it panics with a text.
pub data Ending : Type 0 where
  returns : Ending
  exits : ℕ → Ending
  panics : Text → Ending
  nil_call : Ending

unfoldable pub header : Text → Text → Text
header lvl msg = lvl ++ (codes ": " ++ msg)

-- `l.out[lv](calldepth, s)`: the lines that it writes.
abbrev pub call_fn : OutputFn → Text → Ending → List Text × Ending
call_fn nil_fn s e = ([], nil_call)
call_fn output s e = (s ∷ [], e)
call_fn drop_output_fn s e = ([], e)

unfoldable pub out_at : List OutputFn → ℕ → Text → Ending → List Text × Ending
out_at out lv s e = call_fn (get_or out lv nil_fn) s e

-- The methods of `DefaultLogger`.
module _ {A : Type 0} (f : Format A) (out : List OutputFn) where
  unfoldable pub debug : List A → List Text × Ending
  debug v = out_at out lv_debug (header (codes "DEBUG") (f.sprint v)) returns

  unfoldable pub debugf : Text → List A → List Text × Ending
  debugf format v = out_at out lv_debug (header (codes "DEBUG") (f.sprintf format v)) returns

  unfoldable pub info : List A → List Text × Ending
  info v = out_at out lv_info (header (codes "INFO") (f.sprint v)) returns

  unfoldable pub infof : Text → List A → List Text × Ending
  infof format v = out_at out lv_info (header (codes "INFO") (f.sprintf format v)) returns

  unfoldable pub warn : List A → List Text × Ending
  warn v = out_at out lv_warn (header (codes "WARN") (f.sprint v)) returns

  unfoldable pub warnf : Text → List A → List Text × Ending
  warnf format v = out_at out lv_warn (header (codes "WARN") (f.sprintf format v)) returns

  unfoldable pub error : List A → List Text × Ending
  error v = out_at out lv_error (header (codes "ERROR") (f.sprint v)) returns

  unfoldable pub errorf : Text → List A → List Text × Ending
  errorf format v = out_at out lv_error (header (codes "ERROR") (f.sprintf format v)) returns

  unfoldable pub fatal : List A → List Text × Ending
  fatal v = out_at out lv_fatal (header (codes "FATAL") (f.sprint v)) (exits 1)

  unfoldable pub fatalf : Text → List A → List Text × Ending
  fatalf format v = out_at out lv_fatal (header (codes "FATAL") (f.sprintf format v)) (exits 1)

  unfoldable pub panic : List A → List Text × Ending
  panic v = out_at out lv_panic (header (codes "PANIC") (f.sprint v)) (panics (f.sprint v))

  unfoldable pub panicf : Text → List A → List Text × Ending
  panicf format v =
      out_at out lv_panic (header (codes "PANIC") (f.sprintf format v))
        (panics (f.sprintf format v))

-- Two pieces of a program; the second is not reached where the first does not return.
abbrev pub further : List Text × Ending → List Text × Ending → List Text × Ending
further (lines, returns) (more, e) = (lines ++ more, e)
further (lines, e) rest = (lines, e)

-- One call of the `Logger` interface.
pub data LogCall (A : Type 0) : Type 0 where
  debugs infos warns errors fatals panics_with : List A → LogCall A
  debugs_f infos_f warns_f errors_f fatals_f panics_f : Text → List A → LogCall A

module _ {A : Type 0} (f : Format A) (out : List OutputFn) where
  -- The functions of log/logger.go, where `out` is the table of `l`.
  unfoldable pub log_call : LogCall A → List Text × Ending
  log_call (debugs v) = debug f out v
  log_call (infos v) = info f out v
  log_call (warns v) = warn f out v
  log_call (errors v) = error f out v
  log_call (fatals v) = fatal f out v
  log_call (panics_with v) = panic f out v
  log_call (debugs_f format v) = debugf f out format v
  log_call (infos_f format v) = infof f out format v
  log_call (warns_f format v) = warnf f out format v
  log_call (errors_f format v) = errorf f out format v
  log_call (fatals_f format v) = fatalf f out format v
  log_call (panics_f format v) = panicf f out format v

  -- One call after the other, as long as they return.
  unfoldable pub run : List (LogCall A) → List Text × Ending
  run [] = ([], returns)
  run (q ∷ qs) = further (log_call q) (run qs)
