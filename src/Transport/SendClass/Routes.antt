-- ===== src/Transport/SendClass/Routes.antt =====
-- Which ids can be routed, and that no failure is both worth a retry and hopeless.
use text.Mathlib.TextEquality.{starts_with_iff}
use ezra.Common.{
  ℕ, suc, ◌+◌, String, true, false, ◌||◌, ◌&&◌, some, List, [], ◌∷◌, ◌++◌, str_eq, ◌==◌, length,
  ◌≡◌, refl, ◌≢◌, ◌↔◌, All, arith, eq_iff, Bool-cases, Option-cases, inl, inr, ap, length-append,
  ◌<◌, subst, sym,
}
use ezra.Transport.SendClass.{
  index_of_at, is_unroutable_destination, is_transient_send_error, is_permanent_send_error,
  unroutable_destination_error, permanent_send_error_prefix,
}

-- `<user>@<server>`, both halves there, the `@` the first one.
pub record IsJid (jid : List ℕ) : Type 0 where
  pub user : List ℕ
  pub server : List ℕ
  pub split : jid ≡ user ++ b'@' ∷ server
  pub plain : All (λ c. c ≢ b'@') user
  pub user_there : user ≢ []
  pub server_there : server ≢ []

-- The index found is the length of what stands before the first `@`.
index_of_at-split :
    (i : ℕ) (jid : List ℕ) {at : ℕ}
    → index_of_at i jid ≡ some at
    → (user : List ℕ) × (server : List ℕ) × (jid ≡ user ++ b'@' ∷ server)
      × All (λ c. c ≢ b'@') user
      × (at ≡ i + length user)
unfolding index_of_at
index_of_at-split i [] e = cc
index_of_at-split i (c ∷ cs) {at} e = elim (Bool-cases (c == b'@')) [
  | inl here ↦ ([], cs, ground arith, tt, ground arith)
  | inr other ↦
      let (user, server, same, plain, index) =
        index_of_at-split (suc i) cs {at = at} (ground arith) in
      (c ∷ user, server, ap (λ r. c ∷ r) same, (ground arith, plain), omega (arith, index))
]

index_of_at-found :
    (i : ℕ) (user server : List ℕ)
    → All (λ c. c ≢ b'@') user
    → index_of_at i (user ++ b'@' ∷ server) ≡ some (i + length user)
unfolding index_of_at
index_of_at-found i [] server p = ground arith
index_of_at-found i (c ∷ user) server p = ground (arith, index_of_at-found (suc i) user server)

length-pos {ℓ} : {A : Type ℓ} (xs : List A) → xs ≢ [] → 0 < length xs
length-pos [] h = absurd (h refl)
length-pos (x ∷ xs) h = omega arith

-- Both halves of a split are there, if the `@` stands neither first nor last.
halves_there :
    (user server : List ℕ) (at : ℕ)
    → at ≡ 0 + length user
    → (at == 0 || suc at == length (user ++ b'@' ∷ server)) ≡ false
    → (user ≢ []) × (server ≢ [])
halves_there [] server at index h = absurd (ground arith)
halves_there (c ∷ user) [] at index h = absurd (ground (arith, length-append user (b'@' ∷ [])))
halves_there (c ∷ user) (d ∷ server) at index h = (λ e. cc, λ e. cc)

routable : (jid : List ℕ) → is_unroutable_destination jid ≡ false → IsJid jid
unfolding is_unroutable_destination
routable jid h = elim (Option-cases (index_of_at 0 jid)) [
  | inl gone ↦ cc (rw (gone, is_unroutable_destination) at h)
  | inr (at, found) ↦
      let (user, server, same, plain, index) = index_of_at-split 0 jid {at = at} found in
      let inside : (at == 0 || suc at == length jid) ≡ false = ground arith in
      let (user_there, server_there) = halves_there user server at index (rw same at inside) in
      record {
        user = user;
        server = server;
        split = same;
        plain = plain;
        user_there = user_there;
        server_there = server_there;
      }
]

split-routable :
    (user server : List ℕ)
    → All (λ c. c ≢ b'@') user
    → user ≢ []
    → server ≢ []
    → is_unroutable_destination (user ++ b'@' ∷ server) ≡ false
unfolding is_unroutable_destination
split-routable user server plain u s = ground (
  arith,
  index_of_at-found 0 user server plain,
  length-append user (b'@' ∷ server),
  length-pos user u,
  length-pos server s,
)

IsJid-routable : (jid : List ℕ) → IsJid jid → is_unroutable_destination jid ≡ false
IsJid-routable jid r =
    subst (λ j. is_unroutable_destination j ≡ false) (sym r.split)
      (split-routable r.user r.server r.plain r.user_there r.server_there)

-- The check passes exactly the ids of the form `<user>@<server>`.
pub unroutable_iff : (jid : List ℕ) → (is_unroutable_destination jid ≡ false) ↔ IsJid jid
unroutable_iff jid = (routable jid, λ r. IsJid-routable jid r)

-- The error of an id that cannot be routed is permanent, whatever the id, and no error is both
-- permanent and transient.
pub permanent-not-transient :
    (jid message : String)
    → (is_permanent_send_error (unroutable_destination_error jid) ≡ true)
      × ((is_permanent_send_error message && is_transient_send_error message) ≡ false)
unfolding is_permanent_send_error is_transient_send_error unroutable_destination_error
permanent-not-transient jid message = (
  (starts_with_iff _ permanent_send_error_prefix).1 (_, refl),
  elim (Bool-cases (str_eq message "transport not connected")) [
    | inl same ↦ rw ((eq_iff message "transport not connected").0 same) refl
    | inr other ↦ ground (arith, other)
  ],
)
