-- ===== src/Ingest/Consume/Drained.antt =====
-- The `finally` of `run` in ingest/main.py: what is registered, and what is stored, after it.
use bluesky_trends.Prelude.{
  arith, ℕ, ◌≡◌, refl, true, Bool, List, ◌∷◌, ◌&&◌, not, inl, inr, ◌⊎◌, Bool-cases,
}
use bluesky_trends.Exceptions.{Result, ok, raised}
use bluesky_trends.Schemas.{Pydantic}
use bluesky_trends.Ingest.Config.{Settings}
use bluesky_trends.Ingest.CursorStore.{CursorStore}
use bluesky_trends.Ingest.Checkpointer.{final_save, final_save_or_raise, unsaved}
use bluesky_trends.Ingest.Checkpointer.Trace
use bluesky_trends.Ingest.Checkpointer.Trace.{
  Call, shutdown, registered, acked, Newest, Newest-registered,
}
use bluesky_trends.Ingest.Kafka.{Kafka}
use bluesky_trends.Ingest.Producer.{Outbox, flush}
use bluesky_trends.Ingest.Consume.{
  Printing, Arrival, Session, after_final_save, drain_session, finally,
}
use bluesky_trends.Ingest.Consume.Calls.{Newest-of, after_reports, registered-after_reports}
use bluesky_trends.Ingest.Consume.Follows.{Follows, flush-Follows}
use bluesky_trends.Ingest.Consume.Rising.{arrives}
use bluesky_trends.Ingest.Consume.Settled.{Settled, SettledOn}

module _ {Queue : Type 0} (kafka : Kafka Queue) (py : Pydantic) (print : Printing)
    (settings : Settings) (now : ℕ) (begin : CursorStore) where
  -- What follows a history with the same registered cursors is as settled.
  same-Settled :
      (h h' h'' : List Call) (l : List Arrival) (out : Outbox Queue) (store : CursorStore)
      → ((c : ℕ) → registered c h'' ≡ registered c h')
      → Follows kafka settings now begin h'' out store
      → ((c : ℕ) → registered c h ≡ true → registered c h' ≡ true)
      → ((c : ℕ) → arrives py c l ≡ true → (registered c h' ≡ true) ⊎ Newest c h')
      → SettledOn kafka py print settings now begin h l out store
  same-Settled h h' h'' l out store same f keeps all = (
    h'',
    f,
    λ c e. rw same (keeps c e),
    λ c e. elim (all c e) [
      | inl r ↦ inl (rw same r)
      | inr n ↦ inr (Newest-of c h'' (λ d r. Newest-registered c d h' n (rw same at r)))
    ],
  )

  after_final_save-Settled :
      (h h' : List Call) (l : List Arrival) (wall : ℕ) (saves : Bool) (s : Session Queue)
      (out : Outbox Queue)
      → Follows kafka settings now begin h' out s.store
      → ((c : ℕ) → registered c h ≡ true → registered c h' ≡ true)
      → ((c : ℕ) → arrives py c l ≡ true → (registered c h' ≡ true) ⊎ Newest c h')
      → Settled kafka py print settings now begin h l
          (after_final_save kafka py print settings wall s out
            (final_save_or_raise settings saves (out.checkpointer, s.store))).1
  unfolding final_save_or_raise
  after_final_save-Settled h h' l wall saves s out f keeps all =
      elim (Bool-cases (unsaved out.checkpointer && not saves)) [
        | inl fails ↦ rw fails (
            same-Settled h h' h' l _ _ (λ c. refl)
              (record { in_order = f.in_order; state = f.state; stored = f.stored; live = f.live })
              keeps all)
        | inr works ↦ rw works (
            same-Settled h h' (shutdown ∷ h') l _ _ (λ c. unfold registered in refl)
              (record {
                in_order = f.in_order;
                state = unfold Trace.run in rw f.state refl;
                stored = unfold acked in f.stored;
                live = unfold final_save in λ w c e. f.live w c (ground arith);
              })
              keeps all)
      ]

  flush-Settled :
      (h : List Call) (l : List Arrival) (s : Session Queue)
      → Settled kafka py print settings now begin h l s
      → Settled kafka py print settings now begin h l
          (record s { outbox = (flush kafka 30000 s.outbox).0 })
  flush-Settled h l s (h', f, keeps, all) =
      let rs = (kafka.drain 30000 s.outbox.queue).1 in
      same-Settled h h' (after_reports rs h') l _ _ (λ c. registered-after_reports c rs h')
        (flush-Follows kafka settings now begin 30000 h' s.outbox s.store f) keeps all

  pub drain_session-Settled :
      (h : List Call) (l : List Arrival) (wall : ℕ) (saves : Bool) (s : Session Queue)
      → Settled kafka py print settings now begin h l s
      → Settled kafka py print settings now begin h l
          (drain_session kafka py print settings wall saves s).1
  unfolding drain_session
  drain_session-Settled h l wall saves s settled =
      let (h', f, keeps, all) = flush-Settled h l s settled in
      after_final_save-Settled h h' l wall saves s (flush kafka 30000 s.outbox).0 f keeps all

  -- The exception that leaves `finally` does not change the session.
  pub finally-session :
      (r : Result (Unit {0})) (p : Result (Unit {0}) × Session Queue)
      → (finally kafka py print settings r p).1 ≡ p.1
  finally-session r (ok _, s) = refl
  finally-session r (raised e, s) = refl

  pub finally-result :
      (r : Result (Unit {0})) (p : Result (Unit {0}) × Session Queue)
      → r ≡ ok tt
      → p.0 ≡ ok tt
      → (finally kafka py print settings r p).0 ≡ ok tt
  finally-result r (ok _, s) e e' = e
  finally-result r (raised x, s) e e' = e'
