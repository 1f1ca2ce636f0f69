-- ===== src/Tests/Checkpointer.antt =====
-- The theorems on the checkpointer at concrete histories.
use bluesky_trends.Prelude.{◌≡◌, refl, ◌↔◌, true, false, some, List, [], ◌∷◌, arith}
use bluesky_trends.Prelude.Dict.{lookup, contains, set_default, erase}
use bluesky_trends.Prelude.Sorted.{sorted}
use bluesky_trends.Prelude.StrDict
use bluesky_trends.Ingest.Config.{default_settings}
use bluesky_trends.Ingest.CursorStore.{load}
use bluesky_trends.Ingest.Checkpointer.{
  register, on_ack, advance_watermark, maybe_save, mark_acked, advance_over, due, final_save,
}
use bluesky_trends.Ingest.Checkpointer.Advance.{above}
use bluesky_trends.Ingest.Checkpointer.Trace
use bluesky_trends.Ingest.Checkpointer.Trace.{
  Call, produced, delivered, checkpoint, shutdown, registered, acked, InOrder, NeverFalls,
}
use bluesky_trends.Ingest.Checkpointer.Watermark.{AckedUpTo, watermark_exact, watermark_monotone}
use bluesky_trends.Ingest.Checkpointer.Resume.{loaded, resume_safe}
use bluesky_trends.Samples.{empty_store}

-- Two cursors are produced, and the second alone is acked.
abbrev gap : List Call
gap = checkpoint 5000 ∷ delivered true 9 ∷ produced 9 ∷ produced 7 ∷ []

abbrev both : List Call
both = delivered true 7 ∷ gap

gap-InOrder : InOrder gap
gap-InOrder = ((omega arith, tt), (tt, tt))

acked_both : AckedUpTo 9 both
unfolding acked registered
acked_both d r le = ground arith

watermark_exact_example :
    (above (Trace.run default_settings 0 empty_store both).0.safe_cursor 9 ≡ false)
    ↔ AckedUpTo 9 both
watermark_exact_example =
    watermark_exact default_settings 0 empty_store both gap-InOrder 9 (unfold registered in refl)

-- The event of cursor 9 is replayed.
abbrev replayed : List Call
replayed = produced 9 ∷ gap

replayed-NeverFalls : NeverFalls replayed
replayed-NeverFalls = ((omega arith, (omega arith, tt)), ((omega arith, tt), (tt, tt)))

above-both : above (Trace.run default_settings 0 empty_store both).0.safe_cursor 11 ≡ true
unfolding Trace.run register on_ack advance_watermark maybe_save mark_acked advance_over due sorted
    contains set_default lookup erase
above-both = refl

watermark_monotone_example :
    above (Trace.run default_settings 0 empty_store gap).0.safe_cursor 11 ≡ true
watermark_monotone_example =
    watermark_monotone default_settings 0 empty_store (delivered true 7) gap 11
      replayed-NeverFalls.1 above-both

resume_safe_example :
    above
      (loaded default_settings 0 empty_store (Trace.run default_settings 0 empty_store replayed).1)
      7
    ≡ true
resume_safe_example =
    resume_safe default_settings 0 empty_store replayed 7 replayed-NeverFalls
      (unfold load StrDict.lookup in refl) (unfold registered in refl)
      (unfold acked registered in refl)

safe_9 : (Trace.run default_settings 0 empty_store (shutdown ∷ both)).0.safe_cursor ≡ some 9
unfolding Trace.run register on_ack advance_watermark maybe_save mark_acked advance_over due
    final_save sorted contains set_default lookup erase
safe_9 = refl
