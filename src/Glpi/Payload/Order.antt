-- ===== src/Glpi/Payload/Order.antt =====
-- crates/permissionsync-adapter-glpi/src/payload.rs: the order of the pairs of texts is lawful.
use permissionsync.Prelude.{◌≡◌, refl, ◌↔◌, true, false, [], ◌∷◌, Text, text_eq, text_eq_iff, arith}
use permissionsync.Glpi.Payload.{text_lt, Key, key_eq, key_lt}

pub text_lt_irrefl : (s : Text) → text_lt s s ≡ false
unfolding text_lt
text_lt_irrefl [] = refl
text_lt_irrefl (a ∷ s) = ground (arith, text_lt_irrefl s)

pub text_lt_trans : (s t u : Text) → text_lt s t ≡ true → text_lt t u ≡ true → text_lt s u ≡ true
unfolding text_lt
text_lt_trans s t [] h k = cc
text_lt_trans s [] (c ∷ u) h k = cc
text_lt_trans [] (b ∷ t) (c ∷ u) h k = refl
text_lt_trans (a ∷ s) (b ∷ t) (c ∷ u) h k = ground (arith, text_lt_trans s t u)

pub text_lt-total : (s t : Text) → text_eq s t ≡ false → text_lt s t ≡ false → text_lt t s ≡ true
unfolding text_lt
text_lt-total [] [] h k = cc
text_lt-total [] (b ∷ t) h k = cc
text_lt-total (a ∷ s) [] h k = refl
text_lt-total (a ∷ s) (b ∷ t) h k = ground (arith, text_lt-total s t)

pub key_eq_iff : (k j : Key) → (key_eq k j ≡ true) ↔ (k ≡ j)
key_eq_iff (e, p) (f, q) = ground (arith, text_eq_iff e f, text_eq_iff p q)

pub key_lt_irrefl : (k : Key) → key_lt k k ≡ false
unfolding key_lt
key_lt_irrefl (e, p) = ground (arith, text_lt_irrefl e, text_lt_irrefl p)

pub key_lt_trans : (k j i : Key) → key_lt k j ≡ true → key_lt j i ≡ true → key_lt k i ≡ true
unfolding key_lt
key_lt_trans (e, p) (f, q) (g, r) h k = ground (
  arith,
  text_lt_trans e f g,
  text_lt_trans p q r,
  text_eq_iff e f,
  text_eq_iff f g,
  text_eq_iff e g,
)

pub key_lt-total : (k j : Key) → key_eq k j ≡ false → key_lt k j ≡ false → key_lt j k ≡ true
unfolding key_lt
key_lt-total (e, p) (f, q) h k =
    ground (arith, text_lt-total e f, text_lt-total p q, text_eq_iff e f, text_eq_iff f e)
