-- ===== src/Hitl/Binding.antt =====
-- src/hitl/approval-binding.ts: a quoted reply is read by two sets of words, never by a model. The
-- text functions of the language are parameters: `trim`, `toLowerCase`, and the two `replace` calls
-- of `normalize`. The Hebrew words are written by their code points.
pub mod Words
use ezra.Common.{String, Bool, List, [], ◌∷◌, any, str_eq, if◌then◌else◌}

pub data ApprovalReply : Type 0 where
  approve deny unclear : ApprovalReply

abbrev pub approve_replies : List String
approve_replies =
    "yes" ∷ "y" ∷ "ok" ∷ "okay" ∷ "sure" ∷ "approve" ∷ "approved" ∷ "confirm" ∷ "confirmed"
    ∷ "do it" ∷ "go ahead" ∷ "yes please" ∷ "👍" ∷ "\u{5db}\u{5df}"
    ∷ "\u{5d0}\u{5d9}\u{5e9}\u{5d5}\u{5e8}" ∷ "\u{5d0}\u{5e9}\u{5e8}"
    ∷ "\u{5de}\u{5d0}\u{5e9}\u{5e8}" ∷ "\u{5de}\u{5d0}\u{5e9}\u{5e8}\u{5ea}"
    ∷ "\u{5d1}\u{5e1}\u{5d3}\u{5e8}" ∷ "\u{5d0}\u{5d5}\u{5e7}\u{5d9}\u{5d9}"
    ∷ "\u{5d0}\u{5d5}\u{5e7}\u{5d9}" ∷ "\u{5e1}\u{5d1}\u{5d1}\u{5d4}"
    ∷ "\u{5e7}\u{5d3}\u{5d9}\u{5de}\u{5d4}" ∷ []

abbrev pub deny_replies : List String
deny_replies =
    "no" ∷ "n" ∷ "nope" ∷ "deny" ∷ "denied" ∷ "decline" ∷ "declined" ∷ "cancel" ∷ "don't" ∷ "dont"
    ∷ "stop" ∷ "no thanks" ∷ "👎" ∷ "\u{5dc}\u{5d0}" ∷ "\u{5d1}\u{5d8}\u{5dc}"
    ∷ "\u{5ea}\u{5d1}\u{5d8}\u{5dc}" ∷ "\u{5d1}\u{5d8}\u{5dc}\u{5d9}"
    ∷ "\u{5e2}\u{5d6}\u{5d5}\u{5d1}" ∷ "\u{5e2}\u{5d6}\u{5d1}\u{5d9}"
    ∷ "\u{5dc}\u{5d0} \u{5ea}\u{5d5}\u{5d3}\u{5d4}" ∷ []

-- `Set.has`
unfoldable pub listed : List String → String → Bool
listed words text = any (str_eq text) words

pub record TextOps : Type 0 where
  pub trim : String → String
  pub to_lower_case : String → String
  pub strip_edges : String → String
  pub collapse_spaces : String → String

module _ (ops : TextOps) where
  open ops use {trim, to_lower_case, strip_edges, collapse_spaces}

  unfoldable pub normalize : String → String
  normalize text = collapse_spaces (strip_edges (to_lower_case text))

  unfoldable pub interpret_approval_reply : String → ApprovalReply
  interpret_approval_reply text =
      let trimmed = trim text in
      let normalized = normalize trimmed in
      if listed approve_replies trimmed
      then approve
      else if listed deny_replies trimmed
      then deny
      else if str_eq normalized ""
      then unclear
      else if listed approve_replies normalized
      then approve
      else if listed deny_replies normalized
      then deny
      else unclear
