-- ===== src/Glpi/Mutation/Laws.antt =====
-- crates/permissionsync-adapter-glpi/src/mutation.rs: which responses confirm a deletion.
use permissionsync.Prelude.{
  ℕ, ◌≡◌, refl, ap, ◌⊎◌, inl, inr, Bool, true, ◌&&◌, Option, none, some, ok, err, Option-cases,
  Text, text, text_eq_iff, arith,
}
use permissionsync.Prelude.Outcome
use permissionsync.Prelude.Json.{
  Value, null, bool, number, string, array, object, Items, nil, cons, Fields, end, field,
}
use permissionsync.Prelude.Shapes.{and_then, as_array}
use permissionsync.Prelude.Decimal.{to_string}
use permissionsync.Glpi.Failure.{mutation_failed}
use permissionsync.Glpi.Mutation.{
  Entry, is_some, succeeded, read_success, read_message, read_member, visit_map, deletion_entry,
  visit_seq, parse_deleted_assignment,
}

module _ {N : Type 0} where
  -- The two members of a confirmation, in either order.
  abbrev pub IsConfirmation : Text → Fields N → Type 0
  IsConfirmation id m =
      (s : Text) × ((m ≡ field id (bool true) (field (text "message") (string s) end))
        ⊎ (m ≡ field (text "message") (string s) (field id (bool true) end)))

  -- Nothing may follow both members.
  visited_both :
      (id : Text) (m : Fields N) (b : Bool) (s : Text) (e : Entry)
      → visit_map id m (record { success = some b; message = some s }) ≡ some e
      → (m ≡ end) × (e ≡ record { success = some b; message = some s })
  unfolding visit_map read_member read_success read_message
  visited_both id end b s e h = ground arith
  visited_both id (field k v m) b s e h = ground arith

  visited_success :
      (id : Text) (m : Fields N) (b : Bool) (e : Entry)
      → visit_map id m (record { success = some b; message = none }) ≡ some e
      → (succeeded e && is_some e.message) ≡ true
      → (s : Text) × (b ≡ true) × (m ≡ field (text "message") (string s) end)
  unfolding visit_map read_member read_success read_message
  visited_success id end b e h good = ground arith
  visited_success id (field k null m) b e h good = ground arith
  visited_success id (field k (bool c) m) b e h good = ground arith
  visited_success id (field k (number n) m) b e h good = ground arith
  visited_success id (field k (array vs) m) b e h good = ground arith
  visited_success id (field k (object o) m) b e h good = ground arith
  visited_success id (field k (string s) m) b e h good = (
    s,
    ground (arith, visited_both id m b s e),
    ground (arith, visited_both id m b s e, text_eq_iff k (text "message")),
  )

  visited_message :
      (id : Text) (m : Fields N) (s : Text) (e : Entry)
      → visit_map id m (record { success = none; message = some s }) ≡ some e
      → (succeeded e && is_some e.message) ≡ true
      → m ≡ field id (bool true) end
  unfolding visit_map read_member read_success read_message
  visited_message id end s e h good = ground arith
  visited_message id (field k null m) s e h good = ground arith
  visited_message id (field k (number n) m) s e h good = ground arith
  visited_message id (field k (string t) m) s e h good = ground arith
  visited_message id (field k (array vs) m) s e h good = ground arith
  visited_message id (field k (object o) m) s e h good = ground arith
  visited_message id (field k (bool b) m) s e h good =
      ground (arith, visited_both id m b s e, text_eq_iff k id)

  visited-IsConfirmation :
      (id : Text) (m : Fields N) (e : Entry)
      → visit_map id m (record { success = none; message = none }) ≡ some e
      → (succeeded e && is_some e.message) ≡ true
      → IsConfirmation id m
  unfolding visit_map read_member read_success read_message
  visited-IsConfirmation id end e h good = ground arith
  visited-IsConfirmation id (field k null m) e h good = ground arith
  visited-IsConfirmation id (field k (number n) m) e h good = ground arith
  visited-IsConfirmation id (field k (array vs) m) e h good = ground arith
  visited-IsConfirmation id (field k (object o) m) e h good = ground arith
  visited-IsConfirmation id (field k (bool b) m) e h good =
      let (same, rest) : (k ≡ id)
          × (visit_map id m (record { success = some b; message = none }) ≡ some e) =
        ground (arith, text_eq_iff k id) in
      let (s, yes_, shape) = visited_success id m b e rest good in
      (s, inl (ground (arith, same, yes_, shape)))
  visited-IsConfirmation id (field k (string s) m) e h good =
      let (same, rest) : (k ≡ text "message")
          × (visit_map id m (record { success = none; message = some s }) ≡ some e) =
        ground (arith, text_eq_iff k (text "message")) in
      (s, inr (ground (arith, same, visited_message id m s e rest good)))

  deletion_entry-IsConfirmation :
      (id : Text) (v : Value N)
      → deletion_entry id v ≡ true
      → (m : Fields N) × (v ≡ object m) × IsConfirmation id m
  unfolding deletion_entry
  deletion_entry-IsConfirmation id null h = ground arith
  deletion_entry-IsConfirmation id (bool b) h = ground arith
  deletion_entry-IsConfirmation id (number n) h = ground arith
  deletion_entry-IsConfirmation id (string s) h = ground arith
  deletion_entry-IsConfirmation id (array vs) h = ground arith
  deletion_entry-IsConfirmation id (object m) h =
      elim (Option-cases (visit_map id m (record { success = none; message = none }))) [
        | inl nothing ↦ absurd (ground (arith, nothing))
        | inr (e, visited) ↦
            (m, refl, visited-IsConfirmation id m e visited (ground (arith, visited)))
      ]

  visit_seq-IsConfirmation :
      (id : Text) (vs : Items N)
      → visit_seq id vs ≡ true
      → (m : Fields N) × (vs ≡ cons (object m) nil) × IsConfirmation id m
  unfolding visit_seq
  visit_seq-IsConfirmation id nil h = ground arith
  visit_seq-IsConfirmation id (cons v nil) h =
      let (m, shape, rest) = deletion_entry-IsConfirmation id v h in
      (m, ap (λ u. cons u nil) shape, rest)
  visit_seq-IsConfirmation id (cons v (cons u vs)) h = ground arith

  parsed :
      (id : Text) (d : Option (Value N))
      → (elim (and_then as_array d) [
        | none ↦ err mutation_failed
        | some items ↦ Outcome.guard (visit_seq id items) mutation_failed
      ])
        ≡ ok tt
      → (m : Fields N) × (d ≡ some (array (cons (object m) nil))) × IsConfirmation id m
  parsed id none h = ground arith
  parsed id (some null) h = ground arith
  parsed id (some (bool b)) h = ground arith
  parsed id (some (number n)) h = ground arith
  parsed id (some (string s)) h = ground arith
  parsed id (some (object m)) h = ground arith
  parsed id (some (array vs)) h =
      let (m, shape, rest) =
        visit_seq-IsConfirmation id vs (Outcome.guard-eq-ok (visit_seq id vs) mutation_failed h) in
      (m, ap (λ us. some (array us)) shape, rest)

  -- A deletion is confirmed only by an array with one object, whose two members are the deleted id
  -- with `true` and a message.
  pub parse_deleted_assignment-IsConfirmation :
      (document : Text → Option (Value N)) (body : Text) (id : ℕ)
      → parse_deleted_assignment document body id ≡ ok tt
      → (m : Fields N) × (document body ≡ some (array (cons (object m) nil)))
        × IsConfirmation (to_string id) m
  unfolding parse_deleted_assignment
  parse_deleted_assignment-IsConfirmation document body id h =
      parsed (to_string id) (document body) h
