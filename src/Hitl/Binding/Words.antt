-- ===== src/Hitl/Binding/Words.antt =====
-- Which replies approve, and which deny.
use ezra.Common.{
  String, Bool, true, false, List, [], ◌∷◌, ◌≡◌, refl, ◌⊎◌, ◌↔◌, arith, eq_iff, all, not,
}
use ezra.Hitl.Binding.{
  TextOps, approve, deny, approve_replies, deny_replies, listed, normalize,
  interpret_approval_reply,
}

disjoint_table : all (λ word. not (listed deny_replies word)) approve_replies ≡ true
unfolding listed
disjoint_table = refl

empty_unlisted : (listed approve_replies "" ≡ false) × (listed deny_replies "" ≡ false)
unfolding listed
empty_unlisted = (refl, refl)

apart :
    (p : String → Bool) (words : List String) (text : String)
    → all (λ word. not (p word)) words ≡ true
    → listed words text ≡ true
    → p text ≡ false
unfolding listed
apart p [] text h l = cc
apart p (w ∷ words) text h l = ground (arith, eq_iff text w, apart p words text)

-- No text is in both sets.
deny-listed :
    (text : String) → listed approve_replies text ≡ true → listed deny_replies text ≡ false
deny-listed text h = apart (listed deny_replies) approve_replies text disjoint_table h

module _ (ops : TextOps) (text : String) where
  open ops use {trim}

  -- A quoted reply approves if and only if its trimmed text is in the approving set, or is not in
  -- the denying set and its normalized text is in the approving set.
  pub approve_iff : (interpret_approval_reply ops text ≡ approve) ↔ (
      (listed approve_replies (trim text) ≡ true)
      ⊎ (listed deny_replies (trim text) ≡ false)
        × (listed approve_replies (normalize ops (trim text)) ≡ true))
  unfolding interpret_approval_reply
  approve_iff = ground (arith, eq_iff (normalize ops (trim text)) "", empty_unlisted)

  -- A quoted reply denies if and only if its trimmed text is in the denying set, or is not in the
  -- approving set and its normalized text is in the denying set.
  pub deny_iff : (interpret_approval_reply ops text ≡ deny) ↔ (
      (listed deny_replies (trim text) ≡ true)
      ⊎ (listed approve_replies (trim text) ≡ false)
        × (listed deny_replies (normalize ops (trim text)) ≡ true))
  unfolding interpret_approval_reply
  deny_iff = ground (
    arith,
    eq_iff (normalize ops (trim text)) "",
    empty_unlisted,
    deny-listed (trim text),
    deny-listed (normalize ops (trim text)),
  )
