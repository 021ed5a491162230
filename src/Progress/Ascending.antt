-- ===== src/Progress/Ascending.antt =====
-- Sequences of calls on one ProgressReporter (mcp/progress.go).
use gomcp.Prelude.{
  ℕ, ◌≡◌, refl, ap, ◌∙◌, ◌⊎◌, Bool, true, false, not, inl, inr, Bool-cases, Option, some, none,
  List, [], ◌∷◌, String, if◌then◌else◌, arith,
}
use gomcp.Progress.Floats.{Float64}
use gomcp.Progress.Tokens.{ProgressTokenManager, Randomness}
use gomcp.Progress.Reporter.{
  FloatFunctions, ProgressReporter, Reporting, ReporterError, not_active, already_completed,
  announced_end, completed_reporter, message_or, told_sender, new_progress_reporter, update,
  update_refusal, increment, set_total, complete_reporter, cancel_reporter,
}
use gomcp.Progress.Reports.{
  IsAscending, IsOrderly, update-IsOrderly, increment-IsOrderly, retired-IsOrderly,
}

-- What the code that reports progress does with its reporter before the work is complete. An update
-- comes with the time and with whether the sender takes the notification.
pub data ReporterCall : Type 0 where
  updates : ℕ → Bool → Float64 → String → ReporterCall
  increments : ℕ → Bool → Float64 → String → ReporterCall
  sets_total : Float64 → ReporterCall
  cancels : String → ReporterCall

abbrev pub after_call : FloatFunctions → ReporterCall → Reporting → Reporting
after_call around (updates now sender_ok value message) r =
    (update around now sender_ok value message r).0
after_call around (increments now sender_ok amount message) r =
    (increment around now sender_ok amount message r).0
after_call around (sets_total total) r = record r {
  reporter = (set_total around total r.reporter).0;
}
after_call around (cancels message) r = cancel_reporter message r

unfoldable pub run_reporter : FloatFunctions → List ReporterCall → Reporting → Reporting
run_reporter around [] r = r
run_reporter around (call ∷ calls) r = run_reporter around calls (after_call around call r)

set_total-token :
    (around : FloatFunctions) (total : Float64) (pr : ProgressReporter)
    → (set_total around total pr).0.token ≡ pr.token
unfolding set_total
set_total-token around total pr = ground arith

cancel_reporter-IsOrderly :
    (message : String) (r : Reporting) → IsOrderly r → IsOrderly (cancel_reporter message r)
unfolding cancel_reporter
cancel_reporter-IsOrderly message r orderly = elim (Bool-cases r.reporter.is_active) [
  | inl on ↦ ground (
    arith,
    retired-IsOrderly
        (record r {
          reporter = record r.reporter {
            is_active = false;
            message = message_or message r.reporter.message;
          };
        })
        orderly,
  )
  | inr off ↦ ground (arith, orderly)
]

after_call-IsOrderly :
    (around : FloatFunctions) (call : ReporterCall) (r : Reporting)
    → IsOrderly r
    → IsOrderly (after_call around call r)
after_call-IsOrderly around (updates now sender_ok value message) r orderly =
    update-IsOrderly around now sender_ok value message r orderly
after_call-IsOrderly around (increments now sender_ok amount message) r orderly =
    increment-IsOrderly around now sender_ok amount message r orderly
after_call-IsOrderly around (sets_total total) r (ascending, bound) =
    (ascending, rw (set_total-token around total r.reporter) bound)
after_call-IsOrderly around (cancels message) r orderly =
    cancel_reporter-IsOrderly message r orderly

run_reporter-IsOrderly :
    (around : FloatFunctions) (calls : List ReporterCall) (r : Reporting)
    → IsOrderly r
    → IsOrderly (run_reporter around calls r)
unfolding run_reporter
run_reporter-IsOrderly around [] r orderly = orderly
run_reporter-IsOrderly around (call ∷ calls) r orderly =
    run_reporter-IsOrderly around calls (after_call around call r)
      (after_call-IsOrderly around call r orderly)

new_progress_reporter-IsOrderly :
    (manager : ProgressTokenManager) (now : ℕ) (random : Randomness) (has_sender : Bool)
    (request_id : String) (total : Option Float64) (message version : String)
    → IsOrderly
        (new_progress_reporter manager now random has_sender request_id total message version)
unfolding new_progress_reporter
new_progress_reporter-IsOrderly manager now random has_sender request_id total message version =
    (tt, λ t h. tt)

-- Whatever updates, increments, changes of the total and cancellations a new reporter gets before it
-- is completed, and whichever of its notifications the sender takes, the values that it took never
-- decrease, for any rounding of the stored progress.
pub run_reporter-IsAscending :
    (around : FloatFunctions) (calls : List ReporterCall) (manager : ProgressTokenManager) (now : ℕ)
    (random : Randomness) (has_sender : Bool) (request_id : String) (total : Option Float64)
    (message version : String)
    → IsAscending
        (run_reporter around calls (
          new_progress_reporter manager now random has_sender request_id total message
            version)).sent
run_reporter-IsAscending around calls manager now random has_sender request_id total message
      version =
    (run_reporter-IsOrderly around calls
      (new_progress_reporter manager now random has_sender request_id total message version)
      (new_progress_reporter-IsOrderly manager now random has_sender request_id total message
        version)).0

update-refused :
    (around : FloatFunctions) (r : Reporting) (now : ℕ) (sender_ok : Bool) (value : Float64)
    (message : String) (failure : ReporterError)
    → update_refusal around value r.reporter ≡ some failure
    → update around now sender_ok value message r ≡ (r, some failure)
unfolding update
update-refused around r now sender_ok value message failure e = rw e refl

-- An inactive reporter, or a completed one, refuses every value.
IsStopped : ProgressReporter → Type 0
IsStopped pr = (pr.is_active ≡ false) ⊎ (pr.is_completed ≡ true)

update_refusal-stopped :
    (around : FloatFunctions) (value : Float64) (pr : ProgressReporter)
    → IsStopped pr
    → (failure : ReporterError) × (update_refusal around value pr ≡ some failure)
unfolding update_refusal IsStopped
update_refusal-stopped around value pr (inl off) = (not_active, ground arith)
update_refusal-stopped around value pr (inr done) = elim (Bool-cases pr.is_active) [
  | inl on ↦ (already_completed, ground arith)
  | inr off ↦ (not_active, ground arith)
]

announced_end-reporter :
    (p : Reporting × Option ReporterError) → (announced_end p).0.reporter ≡ p.0.reporter
announced_end-reporter (r, some failure) = refl
announced_end-reporter (r, none) = refl

told_sender-reporter :
    (has_sender sender_ok : Bool) (value : Float64) (r : Reporting)
    → (if has_sender then told_sender sender_ok value r else (r, none)).0.reporter ≡ r.reporter
told_sender-reporter true true value r = refl
told_sender-reporter true false value r = refl
told_sender-reporter false sender_ok value r = refl

-- The guards of `Complete`.
guards-IsStopped :
    (active completed : Bool) (r : Reporting) (p : Reporting × Option ReporterError)
    → r.reporter.is_active ≡ active
    → r.reporter.is_completed ≡ completed
    → p.0.reporter.is_completed ≡ true
    → IsStopped
        (if not active then (r, some not_active) else if completed then (r, none) else p).0.reporter
unfolding IsStopped
guards-IsStopped false completed r p off h done = inl off
guards-IsStopped true true r p on completed done = inr completed
guards-IsStopped true false r p on undone done = inr done

complete_reporter-IsStopped :
    (around : FloatFunctions) (sender_ok : Bool) (message : String) (r : Reporting)
    → IsStopped (complete_reporter around sender_ok message r).0.reporter
unfolding complete_reporter
complete_reporter-IsStopped around sender_ok message r =
    let finished : Reporting = record r {
      reporter = completed_reporter around message r.reporter;
    } in
    let value = around.of_thousandths finished.reporter.current in
    let last =
      if r.reporter.has_sender then told_sender sender_ok value finished else (finished, none) in
    guards-IsStopped r.reporter.is_active r.reporter.is_completed r (announced_end last) refl refl (
      ap (λ (pr : ProgressReporter). pr.is_completed)
        (announced_end-reporter last
          ∙ told_sender-reporter r.reporter.has_sender sender_ok value finished))

cancel_reporter-inactive :
    (message : String) (r : Reporting) → (cancel_reporter message r).reporter.is_active ≡ false
unfolding cancel_reporter
cancel_reporter-inactive message r = elim (Bool-cases r.reporter.is_active) [
  | inl on ↦ ground arith
  | inr off ↦ ground arith
]

update_refusal-inactive :
    (around : FloatFunctions) (value : Float64) (pr : ProgressReporter)
    → pr.is_active ≡ false
    → update_refusal around value pr ≡ some not_active
unfolding update_refusal
update_refusal-inactive around value pr off = ground arith

-- After a completion, whatever its answer, and after a cancellation every update is refused, and the
-- reporter, its tokens and what was sent stay as they are.
pub update-stopped :
    (around : FloatFunctions) (r : Reporting) (now : ℕ) (sender_ok : Bool) (value : Float64)
    (last_ok : Bool) (message last : String)
    → ((failure : ReporterError) × (update around now sender_ok value message
            (complete_reporter around last_ok last r).0
          ≡ ((complete_reporter around last_ok last r).0, some failure)))
      × (update around now sender_ok value message (cancel_reporter last r)
          ≡ (cancel_reporter last r, some not_active))
update-stopped around r now sender_ok value last_ok message last =
    let completed = (complete_reporter around last_ok last r).0 in
    let cancelled = cancel_reporter last r in
    let (failure, e) =
      update_refusal-stopped around value completed.reporter
        (complete_reporter-IsStopped around last_ok last r) in
    (
      (failure, update-refused around completed now sender_ok value message failure e),
      update-refused around cancelled now sender_ok value message not_active (
          update_refusal-inactive around value cancelled.reporter
            (cancel_reporter-inactive last r)),
    )
