-- ===== src/Outbox/Publisher/Loose.antt =====
-- What a publication on the pool leaves: the rows of the events that have a JSON and whose insertion is
-- carried out.
use florist_core.Prelude.{
  ◌≡◌, refl, sym, ◌∙◌, ap, Bool, true, false, String, Option, some, List, [], ◌∷◌, Bool-cases, inl,
  inr, if◌then◌else◌,
}
use florist_core.Kernel.Errors.{Error, Result, ok, err}
use florist_core.Kernel.Errors.Cases.{Result-cases}
use florist_core.Outbox.Publisher.{NewRow, new_row, publish}
use florist_core.Outbox.Publisher.Complete.{put_all}
use florist_core.Db.{Session, Action, pool_exec, next_reply}

-- The insertion as a statement on the pool.
abbrev pub insert_pool : {T X : Type 0} → (NewRow → T → T) → NewRow → Action T X (Unit {0})
insert_pool put row = pool_exec (λ t. some (tt, put row t))

module _ {E : Type 0} (event_name : E → String) (marshal : E → Result String)
    (aggregate_of : E → Option (String × String)) where
  -- The rows that get into the table, where these are the replies to come.
  unfoldable pub delivered : List E → List Bool → List NewRow
  delivered [] replies = []
  delivered (ev ∷ evs) replies =
      let skipped = delivered evs replies in
      let rest = delivered evs (next_reply replies).1 in
      elim (marshal ev) [
        | err _ ↦ skipped
        | ok payload ↦
            if (next_reply replies).0
            then new_row event_name marshal aggregate_of ev payload ∷ rest
            else rest
      ]

  unfoldable pub replies_after : List E → List Bool → List Bool
  replies_after [] replies = replies
  replies_after (ev ∷ evs) replies =
      let skipped = replies_after evs replies in
      let rest = replies_after evs (next_reply replies).1 in
      elim (marshal ev) [ err _ ↦ skipped | ok _ ↦ rest ]

module _ {E T X : Type 0} (event_name : E → String) (marshal : E → Result String)
    (aggregate_of : E → Option (String × String)) (put : NewRow → T → T) where
  abbrev pub after_publish : List E → Session T X → Session T X
  after_publish evs s =
      let rows = delivered event_name marshal aggregate_of evs s.replies in
      record s {
        committed = put_all put rows s.committed;
        working = put_all put rows s.working;
        replies = replies_after event_name marshal aggregate_of evs s.replies;
      }

  abbrev carried : NewRow → Session T X → Session T X
  carried row s = record s {
    committed = put row s.committed;
    working = put row s.working;
    replies = (next_reply s.replies).1;
  }

  abbrev refused : Session T X → Session T X
  refused s = record s { replies = (next_reply s.replies).1 }

  after_publish-carried :
      (ev : E) (evs : List E) (s : Session T X) {payload : String}
      → marshal ev ≡ ok payload
      → (next_reply s.replies).0 ≡ true
      → after_publish (ev ∷ evs) s
        ≡ after_publish evs (carried (new_row event_name marshal aggregate_of ev payload) s)
  unfolding delivered replies_after
  after_publish-carried ev evs s m c = rw (delivered, replies_after, m, c) refl

  publish-carried :
      (ev : E) (evs : List E) (s : Session T X) {payload : String}
      → marshal ev ≡ ok payload
      → (next_reply s.replies).0 ≡ true
      → publish event_name marshal aggregate_of (insert_pool put) (ev ∷ evs) s
        ≡ publish event_name marshal aggregate_of
            (insert_pool put)
            evs
            (carried (new_row event_name marshal aggregate_of ev payload) s)
  unfolding publish pool_exec
  publish-carried ev evs s m c = rw (publish, m, pool_exec, c) refl

  after_publish-refused :
      (ev : E) (evs : List E) (s : Session T X) {payload : String}
      → marshal ev ≡ ok payload
      → (next_reply s.replies).0 ≡ false
      → after_publish (ev ∷ evs) s ≡ after_publish evs (refused s)
  unfolding delivered replies_after
  after_publish-refused ev evs s m c = rw (delivered, replies_after, m, c) refl

  publish-refused :
      (ev : E) (evs : List E) (s : Session T X) {payload : String}
      → marshal ev ≡ ok payload
      → (next_reply s.replies).0 ≡ false
      → publish event_name marshal aggregate_of (insert_pool put) (ev ∷ evs) s
        ≡ publish event_name marshal aggregate_of (insert_pool put) evs (refused s)
  unfolding publish pool_exec
  publish-refused ev evs s m c = rw (publish, m, pool_exec, c) refl

  after_publish-skipped :
      (ev : E) (evs : List E) (s : Session T X) {e : Error}
      → marshal ev ≡ err e
      → after_publish (ev ∷ evs) s ≡ after_publish evs s
  unfolding delivered replies_after
  after_publish-skipped ev evs s m = rw (delivered, replies_after, m) refl

  publish-skipped :
      (ev : E) (evs : List E) (s : Session T X) {e : Error}
      → marshal ev ≡ err e
      → publish event_name marshal aggregate_of (insert_pool put) (ev ∷ evs) s
        ≡ publish event_name marshal aggregate_of (insert_pool put) evs s
  unfolding publish
  publish-skipped ev evs s m = rw (publish, m) refl

  -- `Publish` answers no error, whatever it has lost.
  pub publish-after_publish :
      (evs : List E) (s : Session T X)
      → publish event_name marshal aggregate_of (insert_pool put) evs s
        ≡ (ok tt, after_publish evs s)
  unfolding publish delivered replies_after
  publish-after_publish [] s = refl
  publish-after_publish (ev ∷ evs) s = elim (Result-cases (marshal ev)) [
    | inr (e, m) ↦
        publish-skipped ev evs s m
        ∙ publish-after_publish evs s
        ∙ ap (λ u. (ok tt, u)) (sym (after_publish-skipped ev evs s m))
    | inl (payload, m) ↦ elim (Bool-cases (next_reply s.replies).0) [
      | inr c ↦
          publish-refused ev evs s m c
          ∙ publish-after_publish evs (refused s)
          ∙ ap (λ u. (ok tt, u)) (sym (after_publish-refused ev evs s m c))
      | inl c ↦
          publish-carried ev evs s m c
          ∙ publish-after_publish evs
              (carried (new_row event_name marshal aggregate_of ev payload) s)
          ∙ ap (λ u. (ok tt, u)) (sym (after_publish-carried ev evs s m c))
    ]
  ]
