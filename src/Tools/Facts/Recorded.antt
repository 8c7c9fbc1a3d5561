-- ===== src/Tools/Facts/Recorded.antt =====
-- What `set_fact` leaves behind, and that `get_fact` finds it.
use ezra.Common.{
  ℕ, String, Bool, true, false, Option, none, some, List, [], ◌∷◌, str_eq, eq_refl, ◌≡◌, ◌≢◌, ◌⊎◌,
  ◌≤◌, length, sym, refl, arith, ap, Bool-cases, inl, inr, if◌then◌else◌,
}
use ezra.Store.{HouseholdFact, get_fact, upsert_fact}
use ezra.Store.Settles.{get_fact-upsert_fact}
use ezra.Tools.Facts.{
  FactText, SetFactAnswer, not_recorded, recorded, stored, list_fact_keys, catalog_keys,
  normalize_fact_key, similar_fact_keys, unless_similar, write_fact, is_new, set_fact_at, set_fact,
  take_fact, get_fact_answer,
}

module _ (o : FactText) where
  found-stored :
      (raw : String) (facts : List HouseholdFact) (f : HouseholdFact)
      → get_fact (normalize_fact_key o raw) facts ≡ some f
      → get_fact_answer o raw facts ≡ stored f (list_fact_keys catalog_keys facts)
  unfolding get_fact_answer take_fact get_fact
  found-stored raw [] f h = cc
  found-stored raw (g ∷ facts) f h =
      ap (take_fact o raw (g ∷ facts) (list_fact_keys catalog_keys (g ∷ facts))) h

  -- What a fact needs to be recorded: said to be distinct, stored under its key already, or unlike any.
  abbrev pub MayRecord : String → Bool → List HouseholdFact → Type 0
  MayRecord raw distinct facts =
      (distinct ≡ true)
      ⊎ (get_fact (normalize_fact_key o raw) facts ≢ none)
      ⊎ (similar_fact_keys o (normalize_fact_key o raw) facts ≡ [])

  -- With `key` the normalized key. A refused fact: nothing is written, the key is not there, and
  -- similar ones are. A recorded one: `get_fact` under the same words answers with it, and no other key
  -- reads differently.
  abbrev pub Set :
      String
      → String
      → Bool
      → ℕ
      → List HouseholdFact
      → String
      → SetFactAnswer × List HouseholdFact
      → Type 0
  Set raw value distinct now facts k (not_recorded keys, facts') =
      (facts' ≡ facts)
      × (distinct ≡ false)
      × (get_fact (normalize_fact_key o raw) facts ≡ none)
      × (keys ≡ similar_fact_keys o (normalize_fact_key o raw) facts)
      × (1 ≤ length keys)
  Set raw value distinct now facts k (recorded key v, facts') =
      (get_fact_answer o raw facts'
        ≡ stored (record { key = normalize_fact_key o raw; value = value; updated_at = now })
            (list_fact_keys catalog_keys facts'))
      × MayRecord raw distinct facts
      × (get_fact k facts' ≡ (
          if str_eq (normalize_fact_key o raw) k
          then some (record { key = normalize_fact_key o raw; value = value; updated_at = now })
          else get_fact k facts))

  module _ (raw value : String) (distinct : Bool) (now : ℕ) (facts : List HouseholdFact)
      (k : String) where
    abbrev key : String
    key = normalize_fact_key o raw

    reads_back :
        get_fact key (upsert_fact key value now facts)
        ≡ some (record { key = key; value = value; updated_at = now })
    reads_back = rw (get_fact-upsert_fact key key value now facts, eq_refl key) refl

    write-Set :
        MayRecord raw distinct facts
        → Set raw value distinct now facts k (write_fact o key value now facts)
    write-Set may = (
      found-stored raw (upsert_fact key value now facts) _ reads_back,
      may,
      get_fact-upsert_fact key k value now facts,
    )

    unless-Set :
        (ks : List String)
        → ks ≡ similar_fact_keys o key facts
        → distinct ≡ false
        → get_fact key facts ≡ none
        → Set raw value distinct now facts k (unless_similar o key value now facts ks)
    unless-Set [] e d g = write-Set (inr (inr (sym e)))
    unless-Set (x ∷ ks) e d g = (refl, d, g, e, omega arith)

    new-cases :
        (f : Option HouseholdFact) → is_new o distinct f ≡ true → (distinct ≡ false) × (f ≡ none)
    new-cases none h = (ground arith, refl)
    new-cases (some f) h = cc

    old-may :
        (f : Option HouseholdFact)
        → get_fact key facts ≡ f
        → is_new o distinct f ≡ false
        → MayRecord raw distinct facts
    old-may none g h = inl (ground arith)
    old-may (some f) g h = inr (inl (λ e. cc (g, e)))

    -- A fact is refused or recorded. Refused, it was not said to be distinct, nothing was stored under
    -- its key, the search for similar keys found those that it is refused for, at least one, and nothing
    -- is written. Recorded, it was said to be distinct, or stored under its key already, or no similar
    -- key was found; a read under the same words answers with it, and what is stored under any other
    -- key is as before.
    pub set_fact-Set : Set raw value distinct now facts k (set_fact o raw value distinct now facts)
    unfolding set_fact set_fact_at
    set_fact-Set = elim (Bool-cases (is_new o distinct (get_fact key facts))) [
      | inl h ↦ rw h (
          unless-Set (similar_fact_keys o key facts) refl (new-cases (get_fact key facts) h).0
            (new-cases (get_fact key facts) h).1)
      | inr h ↦ rw h (write-Set (old-may (get_fact key facts) refl h))
    ]
