-- ===== src/Session/Consumer/Sound.antt =====
-- What holds of a connection at every moment.
use umclick.Common.{
  ℕ, suc, ◌+◌, ◌≤◌, ◌≡◌, refl, ap, ◌∙◌, leb, if◌then◌else◌, Bool, true, false, Option, none, some,
  List, ◌∷◌, All, count_if, length, is_some, Bool-cases, inl, inr, arith,
}
use umclick.Session.Consumer.{Claim, CloseReason, Snapshot}
use umclick.Session.Consumer.Connection.{
  Closer, Pending, ServerMessage, connection_error, session_state, session_message, Stage, idle,
  reading_state, taking_lease, rereading_state, GuardCall, opened, acquired, released, Connection,
  release_lease, close_with_error, finish_closing, cancel, disconnect,
}
use umclick.Session.Consumer.Steps.{World}
use umclick.Session.Consumer.Entitled.{MaySee}

abbrev pub is_error : ServerMessage → Bool
is_error (connection_error code retry_after) = true
is_error (session_state snapshot) = false
is_error (session_message event snapshot) = false

abbrev pub is_opened : GuardCall → Bool
is_opened opened = true
is_opened (acquired subject) = false
is_opened (released subject) = false

abbrev pub is_released : GuardCall → Bool
is_released opened = false
is_released (acquired subject) = false
is_released (released subject) = true

abbrev pub bit : Bool → ℕ
bit true = 1
bit false = 0

module _ (w : World) (P : Claim → Type 0) where
  -- Somebody with a claim may see the snapshot at some moment.
  pub record Seen (snapshot : Snapshot) : Type 0 where
    pub now : ℕ
    pub claim : Claim
    pub presented : P claim
    pub may_see : MaySee w.services (w.database now) now w.session_uuid claim snapshot

  abbrev pub IsAllowed : ServerMessage → Type 0
  IsAllowed (connection_error code retry_after) = Unit
  IsAllowed (session_state snapshot) = Seen snapshot
  IsAllowed (session_message event snapshot) = Seen snapshot

  abbrev pub ClaimPresented : Option Claim → Type 0
  ClaimPresented none = Unit
  ClaimPresented (some claim) = P claim

  abbrev pub StagePresented : Stage → Type 0
  StagePresented idle = Unit
  StagePresented (reading_state claim) = P claim
  StagePresented (taking_lease claim grant) = P claim
  StagePresented (rereading_state claim grant) = P claim

  pub record IsSound (claim : Option Claim) (stage : Stage) (sent : List ServerMessage)
      (closing : Bool) (pending : Option Pending) (closed : List ℕ) (lease : Bool)
      (calls : List GuardCall) : Type 0 where
    pub claim_presented : ClaimPresented claim
    pub stage_presented : StagePresented stage
    pub sent_allowed : All IsAllowed sent
    -- The client is told of one error, just when the connection is closing, and it is closed once.
    pub one_error : count_if is_error sent ≡ bit closing
    pub one_close : length closed + bit (is_some pending) ≤ bit closing
    -- A lease that was opened is released once, at the latest when the connection is closed.
    pub lease_held : count_if is_opened calls ≡ count_if is_released calls + bit lease
    pub lease_over : leb 1 (length closed) ≡ true → lease ≡ false

  abbrev pub Sound : Connection → Type 0
  Sound c =
      IsSound c.claim c.stage c.sent c.closing c.pending c.closed c.open_lease_acquired c.calls

  -- A handler that takes one of two ways.
  pub either-Sound :
      (b : Bool) (x y : Connection)
      → (b ≡ true → Sound x)
      → (b ≡ false → Sound y)
      → Sound (if b then x else y)
  either-Sound true x y h k = h refl
  either-Sound false x y h k = k refl

  pub at_stage-Sound :
      (c : Connection) (stage : Stage)
      → Sound c
      → StagePresented stage
      → Sound (record c { stage = stage })
  at_stage-Sound c stage h k = record {
    claim_presented = h.claim_presented;
    stage_presented = k;
    sent_allowed = h.sent_allowed;
    one_error = h.one_error;
    one_close = h.one_close;
    lease_held = h.lease_held;
    lease_over = h.lease_over;
  }

  pub close_with_error-Sound :
      (closer : Closer) (code : ℕ) (reason : CloseReason) (retry : Option ℕ) (c : Connection)
      → Sound c
      → Sound (close_with_error closer code reason retry c)
  unfolding close_with_error
  close_with_error-Sound closer code reason retry c h = elim (Bool-cases c.closing) [
    | inl e ↦ rw e (rw e at h)
    | inr e ↦ rw e (record {
      claim_presented = h.claim_presented;
      stage_presented = h.stage_presented;
      sent_allowed = (tt, h.sent_allowed);
      one_error = ap suc (h.one_error ∙ ap bit e);
      one_close = only_close (length c.closed) (bit (is_some c.pending)) (rw e at h.one_close);
      lease_held = h.lease_held;
      lease_over = h.lease_over;
    })
  ]
    where
      only_close : (n m : ℕ) → n + m ≤ 0 → n + 1 ≤ 1
      only_close n m k = omega (arith, k)

  -- Once the lease is released, it does not matter whether the connection is closed.
  release_lease-Sound :
      (c : Connection)
      → ClaimPresented c.claim
      → StagePresented c.stage
      → All IsAllowed c.sent
      → count_if is_error c.sent ≡ bit c.closing
      → length c.closed + bit (is_some c.pending) ≤ bit c.closing
      → count_if is_opened c.calls ≡ count_if is_released c.calls + bit c.open_lease_acquired
      → Sound (release_lease c)
  unfolding release_lease
  release_lease-Sound c hc hs hm he hl hh = elim (Bool-cases c.open_lease_acquired) [
    | inl f ↦ rw f (record {
      claim_presented = hc;
      stage_presented = hs;
      sent_allowed = hm;
      one_error = he;
      one_close = hl;
      lease_held =
          one_more (count_if is_opened c.calls) (count_if is_released c.calls) (rw f at hh);
      lease_over = λ _. refl;
    })
    | inr f ↦ rw f (record {
      claim_presented = hc;
      stage_presented = hs;
      sent_allowed = hm;
      one_error = he;
      one_close = hl;
      lease_held = rw f at hh;
      lease_over = λ _. refl;
    })
  ]
    where
      one_more : (n m : ℕ) → n ≡ m + 1 → n ≡ suc m + 0
      one_more n m h = omega (arith, h)

  pub finish_closing-Sound : (c : Connection) → Sound c → Sound (finish_closing c)
  unfolding finish_closing
  finish_closing-Sound c h = finished c.pending refl
    where
      close_once : (n k : ℕ) → n + 1 ≤ k → suc n + 0 ≤ k
      close_once n k h = omega (arith, h)

      finished : (p : Option Pending) → c.pending ≡ p → Sound (finish_closing c)
      finished none e = rw e (rw e at h)
      finished (some p) e = rw e (
          release_lease-Sound (record c { pending = none; closed = p.close_code ∷ c.closed })
            h.claim_presented h.stage_presented h.sent_allowed h.one_error
            (close_once (length c.closed) (bit c.closing) (rw e at h.one_close)) h.lease_held)

  pub disconnect-Sound : (c : Connection) → Sound c → Sound (disconnect c)
  unfolding disconnect
  disconnect-Sound c h =
      release_lease-Sound
        (record c {
          deadline_done = true;
          expiry_task = none;
          access_task = false;
          lease_task = false;
          stage = idle;
          group = none;
          pending = none;
        })
        h.claim_presented tt h.sent_allowed h.one_error
        (fewer (length c.closed) (bit (is_some c.pending)) (bit c.closing) h.one_close) h.lease_held
    where
      fewer : (n m k : ℕ) → n + m ≤ k → n + 0 ≤ k
      fewer n m k h = omega (arith, h)

  pub cancel-Sound :
      (cancelled : Closer → Bool) (c : Connection)
      → Sound c
      → Sound (record c { pending = cancel cancelled c.pending })
  cancel-Sound cancelled c h = record {
    claim_presented = h.claim_presented;
    stage_presented = h.stage_presented;
    sent_allowed = h.sent_allowed;
    one_error = h.one_error;
    one_close = fewer (length c.closed) (bit c.closing) c.pending h.one_close;
    lease_held = h.lease_held;
    lease_over = h.lease_over;
  }
    where
      fewer :
          (n k : ℕ) (p : Option Pending)
          → n + bit (is_some p) ≤ k
          → n + bit (is_some (cancel cancelled p)) ≤ k
      fewer n k none h = h
      fewer n k (some p) h = elim (Bool-cases (cancelled p.closer)) [
        | inl e ↦ rw e (omega (arith, h))
        | inr e ↦ rw e h
      ]

  pub sent-Sound :
      (c : Connection) (m : ServerMessage)
      → Sound c
      → is_error m ≡ false
      → IsAllowed m
      → Sound (record c { sent = m ∷ c.sent })
  sent-Sound c m h e allowed = record {
    claim_presented = h.claim_presented;
    stage_presented = h.stage_presented;
    sent_allowed = (allowed, h.sent_allowed);
    one_error = rw e h.one_error;
    one_close = h.one_close;
    lease_held = h.lease_held;
    lease_over = h.lease_over;
  }
