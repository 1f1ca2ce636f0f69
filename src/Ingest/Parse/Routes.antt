-- ===== src/Ingest/Parse/Routes.antt =====
-- Which events become which model, and which exception says what of an event.
use bluesky_trends.Prelude.{ℕ, String, ◌≡◌, true, Option, some, List, arith, inl, inr, Option-cases}
use bluesky_trends.Json.{Value, str, obj, Fields, find, get, is_text}
use bluesky_trends.Exceptions.{ok}
use bluesky_trends.Schemas.{Pydantic}
use bluesky_trends.Schemas.Dump.{read_opt_str-opt_str}
use bluesky_trends.Ingest.Parse.Errors.{dict-cases}
use bluesky_trends.Ingest.Parse.{
  Event, post, like, follow, item, reply, to_post, to_like, to_follow, by_collection, to_model,
}

module _ (py : Pydantic) where
  -- A create commit of a post whose fields have the right types becomes that post, whatever
  -- other keys the event, the commit and the record have.
  pub to_model-post :
      (event commit record_ : Fields) (did rkey cid text created : String) (t : ℕ)
      (langs : Option (List String))
      → get "kind" event ≡ str "commit"
      → get "commit" event ≡ obj commit
      → get "operation" commit ≡ str "create"
      → get "record" commit ≡ obj record_
      → get "collection" commit ≡ str "app.bsky.feed.post"
      → find "did" event ≡ some (str did)
      → find "rkey" commit ≡ some (str rkey)
      → find "cid" commit ≡ some (str cid)
      → find "createdAt" record_ ≡ some (str created)
      → find "text" record_ ≡ some (str text)
      → py.read_datetime (str created) ≡ some t
      → py.read_opt_strs (get "langs" record_) ≡ some langs
      → to_model py event
        ≡ ok (
            post (record {
              did = did;
              rkey = rkey;
              cid = cid;
              created_at = t;
              text = text;
              langs = langs;
              reply_parent = reply record_ "parent";
              reply_root = reply record_ "root";
            }))
  to_model-post event commit record_ did rkey cid text created t langs k c o r l d rk ci cr tx dt
        ls =
      unfold to_model by_collection in
      simp (k, c, o, r, d, l)
        (unfold to_post in simp (rk, ci, cr, tx, dt, ls, py.str_str, read_opt_str-opt_str py))

  -- A create commit of a like whose fields have the right types, with a subject that is a
  -- dictionary with a text `uri` and a text `cid`, becomes that like, whatever other keys the event,
  -- the commit, the record and the subject have.
  pub to_model-like :
      (event commit record_ subject : Fields) (did rkey cid created uri subject_cid : String)
      (t : ℕ)
      → get "kind" event ≡ str "commit"
      → get "commit" event ≡ obj commit
      → get "operation" commit ≡ str "create"
      → get "record" commit ≡ obj record_
      → get "collection" commit ≡ str "app.bsky.feed.like"
      → find "did" event ≡ some (str did)
      → find "rkey" commit ≡ some (str rkey)
      → find "cid" commit ≡ some (str cid)
      → find "createdAt" record_ ≡ some (str created)
      → find "subject" record_ ≡ some (obj subject)
      → find "uri" subject ≡ some (str uri)
      → find "cid" subject ≡ some (str subject_cid)
      → py.read_datetime (str created) ≡ some t
      → to_model py event
        ≡ ok (
            like (record {
              did = did;
              rkey = rkey;
              cid = cid;
              created_at = t;
              subject_uri = uri;
              subject_cid = subject_cid;
            }))
  to_model-like event commit record_ subject did rkey cid created uri subject_cid t k c o r l d rk
        ci cr sj su sc dt =
      unfold to_model by_collection in
      simp (k, c, o, r, d, l) (unfold to_like item in simp (sj, rk, ci, cr, su, sc, dt, py.str_str))

  -- A create commit of a follow whose fields have the right types, with a subject that is a text,
  -- becomes that follow, whatever other keys the event, the commit and the record have.
  pub to_model-follow :
      (event commit record_ : Fields) (did rkey cid created subject : String) (t : ℕ)
      → get "kind" event ≡ str "commit"
      → get "commit" event ≡ obj commit
      → get "operation" commit ≡ str "create"
      → get "record" commit ≡ obj record_
      → get "collection" commit ≡ str "app.bsky.graph.follow"
      → find "did" event ≡ some (str did)
      → find "rkey" commit ≡ some (str rkey)
      → find "cid" commit ≡ some (str cid)
      → find "createdAt" record_ ≡ some (str created)
      → find "subject" record_ ≡ some (str subject)
      → py.read_datetime (str created) ≡ some t
      → to_model py event
        ≡ ok (
            follow
              (record { did = did; rkey = rkey; cid = cid; created_at = t; subject_did = subject }))
  to_model-follow event commit record_ did rkey cid created subject t k c o r l d rk ci cr sj dt =
      unfold to_model by_collection in
      simp (k, c, o, r, d, l) (unfold to_follow item in simp (sj, rk, ci, cr, dt, py.str_str))

  -- Where the event is a create commit, with its record.
  abbrev pub Creates : Fields → Fields → Fields → Type 0
  Creates event commit record_ =
      (is_text "commit" (get "kind" event) ≡ true)
      × (get "commit" event ≡ obj commit)
      × (is_text "create" (get "operation" commit) ≡ true)
      × (get "record" commit ≡ obj record_)

  -- The collection that each model comes from.
  abbrev pub collection_of : Event → String
  collection_of (post _) = "app.bsky.feed.post"
  collection_of (like _) = "app.bsky.feed.like"
  collection_of (follow _) = "app.bsky.graph.follow"

  to_post-collection :
      (did : Value) (commit record_ : Fields) (m : Event)
      → to_post py did commit record_ ≡ ok m
      → collection_of m ≡ "app.bsky.feed.post"
  unfolding to_post
  to_post-collection did commit record_ m e = ground arith

  to_like-collection :
      (did : Value) (commit record_ : Fields) (m : Event)
      → to_like py did commit record_ ≡ ok m
      → collection_of m ≡ "app.bsky.feed.like"
  unfolding to_like item
  to_like-collection did commit record_ m e = ground arith

  to_follow-collection :
      (did : Value) (commit record_ : Fields) (m : Event)
      → to_follow py did commit record_ ≡ ok m
      → collection_of m ≡ "app.bsky.graph.follow"
  unfolding to_follow
  to_follow-collection did commit record_ m e = ground arith

  by_collection-collection :
      (v did : Value) (commit record_ : Fields) (m : Event)
      → by_collection py v did commit record_ ≡ ok m
      → is_text (collection_of m) v ≡ true
  unfolding by_collection
  by_collection-collection v did commit record_ m e = ground (
    arith,
    to_post-collection did commit record_ m,
    to_like-collection did commit record_ m,
    to_follow-collection did commit record_ m,
  )

  -- A model comes only from a commit that creates a record, and its class is that of the
  -- commit's collection.
  pub to_model_sound :
      (event : Fields) (m : Event)
      → to_model py event ≡ ok m
      → (commit : Fields) × (record_ : Fields) × Creates event commit record_
        × (is_text (collection_of m) (get "collection" commit) ≡ true)
  unfolding to_model item
  to_model_sound event m e = elim (dict-cases (get "commit" event)) [
    | inl nothing ↦ absurd (ground arith)
    | inr (commit, c) ↦ elim (dict-cases (get "record" commit)) [
      | inl nothing ↦ absurd (ground arith)
      | inr (record_, r) ↦ elim (Option-cases (find "did" event)) [
        | inl nothing ↦ absurd (ground arith)
        | inr (did, d) ↦ (
          commit,
          record_,
          (ground arith, c, ground arith, r),
          ground (arith, by_collection-collection (get "collection" commit) did commit record_ m),
        )
      ]
    ]
  ]
