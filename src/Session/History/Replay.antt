-- ===== src/Session/History/Replay.antt =====
-- A command that was applied is answered the same way ever after.
use umclick.Common.{
  ℕ, ◌==◌, ◌≡◌, refl, sym, ap, ◌∙◌, inl, inr, subst, true, false, some, List, [], ◌∷◌, any, ok,
  arith, ==_iff, Bool-cases,
}
use umclick.Session.Model.{Game, SessionCommand, CommandKind, BasicState, Env, kind_code}
use umclick.Session.Valid.{IsValid}
use umclick.Session.Run.{basic_state}
use umclick.Session.Transition.Moved.{Timely}
use umclick.Session.Command.{
  CommandInput, applied_command, differs, find_command, request_digest, replay_command,
  execute_manual_command,
}
use umclick.Session.Command.Once.{Applied, Once, find-any, execute_manual_command-Once}
use umclick.Session.Advance.{automatic_command}
use umclick.Session.History.{
  History, here, after, Effect, same, applied, ticked, stored, Commit-Effect, History-IsValid,
}

-- A command that is found is not one whose id is new.
found_not_fresh :
    (k : ℕ) (c : SessionCommand) (cs : List SessionCommand)
    → find_command k cs ≡ some c
    → any (λ y. y.command_id == k) cs ≡ false
    → ⊥
found_not_fresh k c [] e fresh = cc
found_not_fresh k c (y ∷ cs) e fresh = elim (Bool-cases (y.command_id == k)) [
  | inl h ↦ ground (arith, fresh, h)
  | inr h ↦ found_not_fresh k c cs (rw h at e) (ground (arith, fresh, h))
]

find-cons :
    (k : ℕ) (c x : SessionCommand) (cs : List SessionCommand)
    → find_command k cs ≡ some c
    → any (λ y. y.command_id == x.command_id) cs ≡ false
    → find_command k (x ∷ cs) ≡ some c
find-cons k c x cs e fresh = elim (Bool-cases (x.command_id == k)) [
  | inr other ↦ rw other e
  | inl hit ↦ absurd (
      found_not_fresh k c cs e (
        subst (λ (n : ℕ). any (λ (y : SessionCommand). y.command_id == n) cs ≡ false)
          ((==_iff x.command_id k).0 hit) fresh))
]

-- No commit loses or changes a recorded command.
Effect-keeps :
    (env : Env) (g g' : Game) (k : ℕ) (c : SessionCommand)
    → Effect env g g'
    → find_command k g.commands ≡ some c
    → find_command k g'.commands ≡ some c
Effect-keeps env g g' k c (same e) h = rw e h
Effect-keeps env g g' k c (applied kind input response a) h = rw a.recorded (
    find-cons k c (applied_command env kind input g') g.commands h
      (find-any input.command_id g.commands a.fresh))
Effect-keeps env g g' k c (ticked t) h =
    rw t.recorded (find-cons k c (automatic_command env g' _ t.fired) g.commands h t.fresh)
Effect-keeps env g g' k c (stored input moment a s) h = rw s.commands h

History-keeps :
    (env : Env) (g h : Game) (k : ℕ) (c : SessionCommand)
    → IsValid g
    → History env g h
    → find_command k g.commands ≡ some c
    → find_command k h.commands ≡ some c
History-keeps env g h k c v here e = e
History-keeps env g h k c v (after {g = m} p step) e =
    Effect-keeps env m h k c (Commit-Effect env m h (History-IsValid env g m v p) step)
      (History-keeps env g m k c v p e)

not_differs :
    (env : Env) (kind : CommandKind) (input : CommandInput) (g : Game)
    → differs (applied_command env kind input g) kind input (request_digest env kind input) ≡ false
not_differs env kind input g = rw (
  (==_iff (kind_code kind) (kind_code kind)).1 refl,
  (==_iff input.state_revision input.state_revision).1 refl,
  (==_iff (request_digest env kind input) (request_digest env kind input)).1 refl,
)

recorded_replay :
    (env : Env) (g h : Game) (kind : CommandKind) (input : CommandInput) (now : ℕ)
    → find_command input.command_id h.commands ≡ some (applied_command env kind input g)
    → execute_manual_command env h kind input now ≡ ok (h, basic_state g, true)
unfolding execute_manual_command replay_command
recorded_replay env g h kind input now e =
    rw (e, execute_manual_command, not_differs env kind input g)

-- Once a manual command has been applied to a valid game, sending it again with the same body, at any
-- time and after any history of other commits, returns the response of its application, says that it
-- is a repetition, and changes nothing.
pub applied_replay :
    (env : Env) (g g' h : Game) (kind : CommandKind) (input : CommandInput) (applied_at now : ℕ)
    (response : BasicState)
    → IsValid g
    → Timely g.session.phase_started_at applied_at
    → execute_manual_command env g kind input applied_at ≡ ok (g', response, false)
    → History env g' h
    → execute_manual_command env h kind input now ≡ ok (h, response, true)
applied_replay env g g' h kind input applied_at now response v t e p =
    let a : Applied env g kind input g' response =
      subst (Once env g kind input) e
        (execute_manual_command-Once env g kind input applied_at v t) in
    recorded_replay env g' h kind input now (
      History-keeps env g' h input.command_id (applied_command env kind input g') a.advanced.valid p
        (rw a.recorded (ground (arith, (==_iff input.command_id input.command_id).1 refl))))
    ∙ ap (λ (r : BasicState). ok (h, r, true)) (sym a.answer)
