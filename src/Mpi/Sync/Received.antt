-- ===== src/Mpi/Sync/Received.antt =====
-- `merge_received`: the journals of all tasks are merged into one.
use laik.Prelude.{
  ℕ, Bool, true, false, not, ◌==◌, ltb, List, [], ◌∷◌, length, length-append, All, map, Option,
  none, some, ◌≡◌, refl, ap, ap₂, sym, ◌∙◌, arith, inl, inr, Outcome, done,
}
use laik.Prelude.Sort.{QSort}
use laik.Kvs.{Changes}
use laik.Kvs.Journal.{changes_merge}
use laik.Kvs.Encode.{Change, encode, encoded, offsets, length-encode}
use laik.Kvs.Refine.{Map}
use laik.Kvs.Union.{or_else-none, NoDup, Ascending-NoDup, change_at, or_else}
use laik.Kvs.Merge.Whole.{changes_merge-Merges}
use laik.Kvs.Carry.{Carries, changes_sort-Carries}
use laik.Mpi.Sync.{merge_received}
use laik.Mpi.Sync.Collect.{
  Sendable, Sendable-Proper, All-change_at, change_at-All, Extends, no-Conflict, message_of,
  first_of, HasRoom, ready_for, filled_with, ready_for-room, set_size-cleared, cleared-ready,
  filled_with-set, filled_with-Holds,
}

-- The changes of one task can be sent, and agree with `news`.
abbrev pub Fine : Map → List Change → Type 0
Fine news ps = NoDup ps × All Sendable ps × Extends news ps

or_else-Extends :
    {news : Map} (xs ys ws : List Change)
    → Extends news xs
    → Extends news ys
    → ((k : List ℕ) → change_at ws k ≡ or_else (change_at xs k) (change_at ys k))
    → Extends news ws
or_else-Extends {news} xs ys ws hx hy same k v e = from (change_at xs k) refl
  where
    from : (o : Option (List ℕ)) → change_at xs k ≡ o → news k ≡ some v
    from (some w) eq =
        hx k v (eq ∙ sym (ap (λ o. or_else o (change_at ys k)) eq) ∙ sym (same k) ∙ e)
    from none eq = hy k v (sym (ap (λ o. or_else o (change_at ys k)) eq) ∙ sym (same k) ∙ e)

or_else-Sendable :
    (xs ys ws : List Change)
    → All Sendable xs
    → All Sendable ys
    → NoDup ws
    → ((k : List ℕ) → change_at ws k ≡ or_else (change_at xs k) (change_at ys k))
    → All Sendable ws
or_else-Sendable xs ys ws hx hy dup same =
    change_at-All Sendable ws dup (λ k v e. from k v e (change_at xs k) refl)
  where
    from :
        (k v : List ℕ)
        → change_at ws k ≡ some v
        → (o : Option (List ℕ)) → change_at xs k ≡ o
        → Sendable (k, v)
    from k v e (some w) eq =
        All-change_at Sendable xs k v hx
          (eq ∙ sym (ap (λ o. or_else o (change_at ys k)) eq) ∙ sym (same k) ∙ e)
    from k v e none eq =
        All-change_at Sendable ys k v hy
          (sym (ap (λ o. or_else o (change_at ys k)) eq) ∙ sym (same k) ∙ e)

-- The merge of two journals that agree
merge-Carries :
    {news : Map} (dst src1 src2 : Changes) (qs xs ps ys : List Change)
    → HasRoom dst
    → Carries src1 qs xs
    → Carries src2 ps ys
    → Fine news qs
    → Fine news ps
    → (c : Changes) × (ws : List Change) × (changes_merge dst src1 src2 ≡ done c)
      × Carries c ws ws
      × Fine news ws
      × ((k : List ℕ) → change_at ws k ≡ or_else (change_at qs k) (change_at ps k))
merge-Carries {news} dst src1 src2 qs xs ps ys room one two (dup1, send1, ext1)
      (dup2, send2, ext2) =
    elim (changes_merge-Merges dst src1 src2 xs ys room one.journal two.journal) [
      | inl (failed, conflict) ↦ absurd (
          no-Conflict xs ys (λ k v e. ext1 k v (one.same k ∙ e))
            (λ k v e. ext2 k v (two.same k ∙ e)) conflict)
      | inr (c, ws, returns, filled, u) ↦
          let dup = Ascending-NoDup ws u.ascending in
          let values : (k : List ℕ) → change_at ws k ≡ or_else (change_at qs k) (change_at ps k) =
            λ k. u.values k ∙ ap₂ or_else (sym (one.same k)) (sym (two.same k)) in
          (
            c,
            ws,
            returns,
            record {
              journal = record {
                ascending = u.ascending;
                listed = filled.listed;
                off_length = ap length filled.held.off_eq;
                bytes_length = ap length filled.held.bytes_eq;
              };
              off_eq = filled.held.off_eq;
              bytes_eq = filled.held.bytes_eq;
              room = filled.held.room;
              no_dup = dup;
              same = λ k. refl;
            },
            (
              dup,
              or_else-Sendable qs ps ws send1 send2 dup values,
              or_else-Extends qs ps ws ext1 ext2 values,
            ),
            values,
          )
    ]

-- What the merges leave in the first journal.
abbrev Collected : Map → Map → Outcome (Changes × Changes × Bool) → Type 0
Collected news m o =
    (dst : Changes) × (src : Changes) × (own : Bool) × (qs : List Change) × (ws : List Change) × (o
      ≡ done (dst, src, own))
    × Carries dst qs ws
    × HasRoom src
    × Fine news qs
    × ((k : List ℕ) → change_at qs k ≡ m k)

or_else_assoc : (a b c : Option (List ℕ)) → or_else (or_else a b) c ≡ or_else a (or_else b c)
or_else_assoc none b c = refl
or_else_assoc (some v) b c = refl

module _ (q : QSort) (news : Map) where
  pub merge_received-Collected :
      (pss : List (List Change)) (dst src recvd : Changes) (own : Bool) (qs ws : List Change)
      → All (Fine news) pss
      → Carries dst qs ws
      → Fine news qs
      → HasRoom src
      → HasRoom recvd
      → Collected news
          (λ k. or_else (change_at qs k) (first_of pss k))
          (merge_received q (map message_of pss) dst src own recvd)
  unfolding merge_received change_at
  merge_received-Collected [] dst src recvd own qs ws fines carries fine room room' =
      (dst, src, own, qs, ws, refl, carries, room, fine, λ k. sym (or_else-none (change_at qs k)))
  merge_received-Collected ([] ∷ pss) dst src recvd own qs ws (f, fines) carries fine room room' =
      let (dst', src', own', qs', ws', returns, held, room'', fine3, same) =
        merge_received-Collected pss dst src (ready_for recvd []) own qs ws fines carries fine room
          (ready_for-room recvd [] room') in
      (
        dst',
        src',
        own',
        qs',
        ws',
        rw (set_size-cleared recvd, cleared-ready recvd [], returns, merge_received) refl,
        held,
        room'',
        fine3,
        same,
      )
  merge_received-Collected ((p ∷ ps) ∷ pss) dst src recvd own qs ws (f, fines) carries fine room
        room' =
      let message = p ∷ ps in
      let some_offsets : (length (offsets message) == 0) ≡ false = ground arith in
      let some_bytes : ltb 0 (length (encoded message)) ≡ true =
        ground (arith, length-append (encode p) (encoded ps), length-encode p) in
      let (sorted, ys, sorts, carries') =
        changes_sort-Carries q (filled_with recvd message) message
          (filled_with-Holds recvd message room') refl (Sendable-Proper message f.1) f.0 in
      let (merged, zs, merges, carries'', fine'', values) =
        merge-Carries src dst sorted qs ws message ys room carries carries' fine f in
      let (dst', src', own', qs', ws', returns, held, room'', fine3, same) =
        merge_received-Collected pss merged dst sorted (not own) zs zs fines carries'' fine''
          carries.room carries'.room in
      (
        dst',
        src',
        own',
        qs',
        ws',
        rw
            (
              set_size-cleared recvd,
              cleared-ready recvd message,
              some_offsets,
              some_bytes,
              filled_with-set recvd p ps,
              sorts,
              merges,
              returns,
              merge_received,
            )
            refl,
        held,
        room'',
        fine3,
        λ k.
            same k
            ∙ ap (λ o. or_else o (first_of pss k)) (values k)
            ∙ or_else_assoc (change_at qs k) (change_at message k) (first_of pss k),
      )
