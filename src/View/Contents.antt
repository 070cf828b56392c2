-- ===== src/View/Contents.antt =====
-- The contents of a view, and its invariant.
use architecturekit_golang.Base.{
  ◌+◌, ◌*◌, ◌<◌, ◌≡◌, refl, sym, ap, ◌∙◌, inl, inr, none, some, List, [], ◌∷◌, ◌++◌, arith, ltb,
  ltb→lt, Bool-cases, Option-cases, Eq, nat_eq, length, length-append, get_elem?-append,
  get_elem?-last, text_has_eq, Dict, lookup, remove, IsDistinct, lookup-assign, lookup-remove,
  length-assign_absent, length-assign_present, assign-IsDistinct, remove-IsDistinct,
}
use architecturekit_golang.View.{View, add, replace_entry, compact, remove_from_indexes}
use architecturekit_golang.View.Items.{Entry, Config, AppliedEvent, stamped}
use architecturekit_golang.View.Order.{live}
use architecturekit_golang.View.Live.{
  replace, live-append, live-assign, live-remove, lookup-live, lookup-live_absent,
}
use architecturekit_golang.View.Compaction.{
  Stamped, stamp, stamp_option, stamp_all, stamp_all-append,
}
use architecturekit_golang.View.Compacted.{Placed, compact_from-IsCompaction}
use architecturekit_golang.View.Model.{stamp_with}

module _ {ℓ} {K I V : Type ℓ} ⦃e : Eq K⦄ ⦃ev : Eq V⦄ where
  -- The items with the event that changed each of them last, by key, in the order of `All`.
  abbrev pub contents : View K I V → Dict K (Stamped I)
  contents v = stamp_all (live 0 v.order v.entries)

  -- No key has two entries, every entry is at its position of the order, and the order is not much
  -- longer than there are entries.
  pub record IsValid (v : View K I V) : Type ℓ where
    pub distinct : IsDistinct v.entries
    pub placed : Placed v.order v.entries
    pub bounded : length v.order < 2 * length v.entries + 16

module _ {ℓ} {K I : Type ℓ} ⦃e : Eq K⦄ where
  pub lookup-stamp_all :
      (k : K) (xs : List (K × Entry I)) → lookup k (stamp_all xs) ≡ stamp_option (lookup k xs)
  unfolding lookup
  lookup-stamp_all k [] = refl
  lookup-stamp_all k ((j, en) ∷ xs) = ground (arith, lookup-stamp_all k xs)

  pub stamp_all-replace :
      (k : K) (en : Entry I) (xs : List (K × Entry I))
      → stamp_all (replace k en xs) ≡ replace k (stamp en) (stamp_all xs)
  unfolding replace
  stamp_all-replace k en [] = refl
  stamp_all-replace k en ((j, x) ∷ xs) = ground (arith, stamp_all-replace k en xs)

  pub stamp_all-remove :
      (k : K) (xs : List (K × Entry I)) → stamp_all (remove k xs) ≡ remove k (stamp_all xs)
  unfolding remove
  stamp_all-remove k [] = refl
  stamp_all-remove k ((j, x) ∷ xs) = ground (arith, stamp_all-remove k xs)

module _ {ℓ} {K I V : Type ℓ} ⦃e : Eq K⦄ ⦃ev : Eq V⦄ where
  -- What the view knows of a key is what its contents hold.
  pub lookup-contents :
      (v : View K I V) (k : K)
      → IsValid v
      → lookup k (contents v) ≡ stamp_option (lookup k v.entries)
  lookup-contents v k h = elim (Option-cases (lookup k v.entries)) [
    | inl none_found ↦
        lookup-stamp_all k (live 0 v.order v.entries)
        ∙ ap stamp_option (lookup-live_absent 0 v.order k v.entries none_found ∙ sym none_found)
    | inr (en, found) ↦
        lookup-stamp_all k (live 0 v.order v.entries)
        ∙ ap stamp_option (
            lookup-live 0 en.position v.order k en v.entries found (omega arith)
              (h.placed k en found)
            ∙ sym found)
  ]

  pub contents-add :
      (c : Config K I) (key : K) (item : I) (event : AppliedEvent) (v : View K I V)
      → lookup key v.entries ≡ none
      → contents (add c key item event v)
        ≡ contents v ++ (key, stamp_with event (stamped c event item)) ∷ []
  unfolding add
  contents-add c key item event v absent =
      ap stamp_all (live-append 0 v.order key _ v.entries absent (omega arith))
      ∙ stamp_all-append (live 0 v.order v.entries) _

  pub add-IsValid :
      (c : Config K I) (key : K) (item : I) (event : AppliedEvent) (v : View K I V)
      → lookup key v.entries ≡ none
      → IsValid v
      → IsValid (add c key item event v)
  unfolding add
  add-IsValid c key item event v absent h =
      let entry : Entry I = record {
        item = stamped c event item;
        revision = event.number;
        part = event.part;
        position = length v.order;
      } in
      record {
        distinct = assign-IsDistinct key entry v.entries h.distinct;
        placed = λ q x found. elim (Bool-cases (e.beq key q)) [
          | inl same ↦
              let x_is : entry ≡ x = ground (arith, lookup-assign key q entry v.entries) in
              rw (← x_is, ← (e.beq_iff key q).0 same) (get_elem?-last v.order key)
          | inr other ↦
              let old : lookup q v.entries ≡ some x =
                ground (arith, lookup-assign key q entry v.entries) in
              get_elem?-append v.order (key ∷ []) x.position q (h.placed q x old)
        ];
        bounded =
            let b = h.bounded in
            omega (
              arith,
              length-append v.order (key ∷ []),
              length-assign_absent key entry v.entries absent,
            );
      }

  pub contents-replace_entry :
      (key : K) (before after : Entry I) (v : View K I V)
      → lookup key v.entries ≡ some before
      → after.position ≡ before.position
      → contents (replace_entry key before after v) ≡ replace key (stamp after) (contents v)
  unfolding replace_entry
  contents-replace_entry key before after v found same =
      ap stamp_all (live-assign 0 v.order key before after v.entries found same)
      ∙ stamp_all-replace key after (live 0 v.order v.entries)

  pub replace_entry-IsValid :
      (key : K) (before after : Entry I) (v : View K I V)
      → lookup key v.entries ≡ some before
      → after.position ≡ before.position
      → IsValid v
      → IsValid (replace_entry key before after v)
  unfolding replace_entry
  replace_entry-IsValid key before after v found same h = record {
    distinct = assign-IsDistinct key after v.entries h.distinct;
    placed = λ q x at. elim (Bool-cases (e.beq key q)) [
      | inl eq ↦
          let x_is : after ≡ x = ground (arith, lookup-assign key q after v.entries) in
          rw (← x_is, ← (e.beq_iff key q).0 eq, same) (h.placed key before found)
      | inr other ↦
          let old : lookup q v.entries ≡ some x =
            ground (arith, lookup-assign key q after v.entries) in
          h.placed q x old
    ];
    bounded =
        let b = h.bounded in omega (arith, length-assign_present key after before v.entries found);
  }

  -- Compaction changes nothing of the contents, and leaves a view in order.
  compact-contents : (v : View K I V) → contents (compact v) ≡ contents v
  unfolding compact
  compact-contents v = elim (Bool-cases (ltb (length v.order) (2 * length v.entries + 16))) [
    | inl short ↦ ground arith
    | inr long ↦ let done = compact_from-IsCompaction v.order v.entries in rw long done.listing
  ]

  compact-IsValid :
      (v : View K I V) → IsDistinct v.entries → Placed v.order v.entries → IsValid (compact v)
  unfolding compact
  compact-IsValid v d p = elim (Bool-cases (ltb (length v.order) (2 * length v.entries + 16))) [
    | inl short ↦ rw short (record { distinct = d; placed = p; bounded = ltb→lt _ _ short })
    | inr long ↦
        let done = compact_from-IsCompaction v.order v.entries in
        let fits = done.fits in
        rw long
          (record { distinct = done.distinct d; placed = done.placed p; bounded = omega arith })
  ]

  -- The view without the entry of a key, before its order is compacted.
  abbrev pub without : K → I → View K I V → View K I V
  without key item v = record v {
    entries = remove key v.entries;
    indexes = remove_from_indexes key item v.indexes;
  }

  pub without-contents :
      (key : K) (item : I) (v : View K I V)
      → contents (compact (without key item v)) ≡ remove key (contents v)
  without-contents key item v =
      compact-contents (without key item v)
      ∙ ap stamp_all (live-remove 0 v.order key v.entries)
      ∙ stamp_all-remove key (live 0 v.order v.entries)

  pub without-IsValid :
      (key : K) (item : I) (v : View K I V) → IsValid v → IsValid (compact (without key item v))
  without-IsValid key item v h =
      compact-IsValid (without key item v) (remove-IsDistinct key v.entries h.distinct)
        (λ q x found. h.placed q x (ground (arith, lookup-remove key q v.entries)))
