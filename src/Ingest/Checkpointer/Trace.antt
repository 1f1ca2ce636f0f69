-- ===== src/Ingest/Checkpointer/Trace.antt =====
-- Histories of calls of the checkpointer's methods, latest call first, and what they say of a
-- cursor. The methods are those of `_CursorCheckpointer` in ingest/main.py.
use bluesky_trends.Prelude.{
  ℕ, ◌<◌, ◌≤◌, ◌≡◌, Bool, true, false, ◌&&◌, ◌||◌, List, [], ◌∷◌, arith, ◌==◌,
}
use bluesky_trends.Ingest.Config.{Settings}
use bluesky_trends.Ingest.CursorStore.{CursorStore}
use bluesky_trends.Ingest.Checkpointer.{
  Checkpointer, new_checkpointer, register, on_ack, maybe_save, final_save,
}

pub data Call : Type 0 where
  produced : ℕ → Call
  delivered : Bool → ℕ → Call
  checkpoint : ℕ → Call
  shutdown : Call

abbrev pub call : Settings → Call → Checkpointer × CursorStore → Checkpointer × CursorStore
call settings (produced c) (cp, store) = (register c cp, store)
call settings (delivered success c) (cp, store) = (on_ack success c cp, store)
call settings (checkpoint now) state = maybe_save settings now state
call settings shutdown state = final_save settings state

-- The state after a history that begins with a new checkpointer at clock `now`.
unfoldable pub run : Settings → ℕ → CursorStore → List Call → Checkpointer × CursorStore
run settings now store [] = (new_checkpointer now, store)
run settings now store (k ∷ earlier) = call settings k (run settings now store earlier)

unfoldable pub registered : ℕ → List Call → Bool
registered c [] = false
registered c (produced d ∷ h) = c == d || registered c h
registered c (delivered _ _ ∷ h) = registered c h
registered c (checkpoint _ ∷ h) = registered c h
registered c (shutdown ∷ h) = registered c h

-- A successful delivery was reported of the cursor after it had been registered.
unfoldable pub acked : ℕ → List Call → Bool
unfolding registered
acked c [] = false
acked c (produced _ ∷ h) = acked c h
acked c (delivered success d ∷ h) = (success && c == d && registered c h) || acked c h
acked c (checkpoint _ ∷ h) = acked c h
acked c (shutdown ∷ h) = acked c h

-- Every cursor registered so far lies below `c`.
abbrev pub Newest : ℕ → List Call → Type 0
Newest c [] = Unit
Newest c (produced d ∷ h) = (d < c) × Newest c h
Newest c (delivered _ _ ∷ h) = Newest c h
Newest c (checkpoint _ ∷ h) = Newest c h
Newest c (shutdown ∷ h) = Newest c h

-- The cursors are registered in increasing order.
abbrev pub InOrder : List Call → Type 0
InOrder [] = Unit
InOrder (produced c ∷ h) = Newest c h × InOrder h
InOrder (delivered _ _ ∷ h) = InOrder h
InOrder (checkpoint _ ∷ h) = InOrder h
InOrder (shutdown ∷ h) = InOrder h

-- No cursor registered so far lies above `c`.
abbrev pub Latest : ℕ → List Call → Type 0
Latest c [] = Unit
Latest c (produced d ∷ h) = (d ≤ c) × Latest c h
Latest c (delivered _ _ ∷ h) = Latest c h
Latest c (checkpoint _ ∷ h) = Latest c h
Latest c (shutdown ∷ h) = Latest c h

-- The registered cursors never fall: one may come again, as an event that is replayed does.
abbrev pub NeverFalls : List Call → Type 0
NeverFalls [] = Unit
NeverFalls (produced c ∷ h) = Latest c h × NeverFalls h
NeverFalls (delivered _ _ ∷ h) = NeverFalls h
NeverFalls (checkpoint _ ∷ h) = NeverFalls h
NeverFalls (shutdown ∷ h) = NeverFalls h

pub Latest-registered : (c d : ℕ) (h : List Call) → Latest c h → registered d h ≡ true → d ≤ c
unfolding registered
Latest-registered c d [] n r = absurd (ground arith)
Latest-registered c d (produced e ∷ h) n r = ground (arith, Latest-registered c d h n.1)
Latest-registered c d (delivered _ _ ∷ h) n r = Latest-registered c d h n r
Latest-registered c d (checkpoint _ ∷ h) n r = Latest-registered c d h n r
Latest-registered c d (shutdown ∷ h) n r = Latest-registered c d h n r

pub Newest-registered : (c d : ℕ) (h : List Call) → Newest c h → registered d h ≡ true → d < c
unfolding registered
Newest-registered c d [] n r = absurd (ground arith)
Newest-registered c d (produced e ∷ h) n r = ground (arith, Newest-registered c d h n.1)
Newest-registered c d (delivered _ _ ∷ h) n r = Newest-registered c d h n r
Newest-registered c d (checkpoint _ ∷ h) n r = Newest-registered c d h n r
Newest-registered c d (shutdown ∷ h) n r = Newest-registered c d h n r

pub acked-registered : (c : ℕ) (h : List Call) → acked c h ≡ true → registered c h ≡ true
unfolding acked
acked-registered c [] a = a
acked-registered c (produced d ∷ h) a = ground (arith, acked-registered c h a)
acked-registered c (delivered s d ∷ h) a = ground (arith, acked-registered c h)
acked-registered c (checkpoint _ ∷ h) a = acked-registered c h a
acked-registered c (shutdown ∷ h) a = acked-registered c h a
