-- ===== src/Transport/Outgoing/Echoless.antt =====
-- What the bot has sent does not come back to it as a message, and what it says carries the marker.
use Prim.Native.String
use text.Mathlib.Text.{starts_with}
use text.Mathlib.TextPositions.{starts_with-append}
use ezra.Common.{
  ℕ, suc, ◌≤◌, ◌<◌, String, true, false, Option, none, some, List, [], ◌∷◌, ◌++◌, str_eq, eq_iff,
  Attempt, returned, threw, ◌≡◌, refl, arith, sym, ap, ◌∙◌, length, All, Bool-cases, inl, inr,
  subst,
}
use ezra.Transport.RecentIds.{RecentIds, has, add_all}
use ezra.Transport.RecentIds.Echoes.{add_all-has}
use ezra.Transport.Upsert.Handed.{IsNews, handle_upsert-IsNews}
use ezra.Transport.Upsert.{UpsertMessage, UpsertType, InboundMessage, handle_upsert}
use ezra.Transport.Outgoing.{
  agent_marker, mark_agent_text, OutboundMessage, Raced, answered, late, failed, Channel, send,
  send_all,
}

module _ (code_points : String → List ℕ) (timed_out : String) where
  -- What a send adds to the set of sent ids.
  abbrev recorded : Attempt String → List String
  recorded (returned id) = id ∷ []
  recorded (threw e) = []

  send-records :
      (raced : Raced) (m : OutboundMessage) (c : Channel)
      → (send code_points timed_out raced m c).1.sent_ids
        ≡ add_all (recorded (send code_points timed_out raced m c).0) c.sent_ids
  unfolding send add_all
  send-records (answered none) m c = ground arith
  send-records (answered (some id)) m c = ground arith
  send-records late m c = ground arith
  send-records (failed e) m c = ground arith

  -- The ids that a run of sends adds.
  replies : List (Raced × OutboundMessage) → Channel → List String
  replies [] c = []
  replies ((raced, m) ∷ sends) c =
      recorded (send code_points timed_out raced m c).0
      ++ replies sends (send code_points timed_out raced m c).1

  add_all-recorded :
      (a : Attempt String) (ids : List String) (r : RecentIds)
      → add_all ids (add_all (recorded a) r) ≡ add_all (recorded a ++ ids) r
  unfolding add_all
  add_all-recorded (returned id) ids r = refl
  add_all-recorded (threw e) ids r = refl

  length-recorded :
      (a : Attempt String) (ids : List String) → length (recorded a ++ ids) ≤ suc (length ids)
  length-recorded (returned id) ids = omega arith
  length-recorded (threw e) ids = omega arith

  send_all-records :
      (sends : List (Raced × OutboundMessage)) (c : Channel)
      → (send_all code_points timed_out sends c).sent_ids ≡ add_all (replies sends c) c.sent_ids
  unfolding send_all replies
  send_all-records [] c = unfold add_all in refl
  send_all-records ((raced, m) ∷ sends) c =
      send_all-records sends (send code_points timed_out raced m c).1
      ∙ ap (add_all (replies sends (send code_points timed_out raced m c).1))
          (send-records raced m c)
      ∙ add_all-recorded (send code_points timed_out raced m c).0 _ c.sent_ids

  length-replies :
      (sends : List (Raced × OutboundMessage)) (c : Channel)
      → length (replies sends c) ≤ length sends
  unfolding replies
  length-replies [] c = omega arith
  length-replies ((raced, m) ∷ sends) c = omega (
    arith,
    length-replies sends (send code_points timed_out raced m c).1,
    length-recorded (send code_points timed_out raced m c).0
        (replies sends (send code_points timed_out raced m c).1),
  )

  not_news :
      (id : String) (sent_ids : RecentIds) (ms : List InboundMessage)
      → has id sent_ids ≡ true
      → All (IsNews sent_ids) ms
      → All (λ n. str_eq id n.id ≡ false) ms
  not_news id sent_ids [] h all = tt
  not_news id sent_ids (n ∷ ms) h all = (
    elim (Bool-cases (str_eq id n.id)) [
      | inl e ↦ (cc (sym (subst (λ x. has x sent_ids ≡ true) ((eq_iff id n.id).0 e) h) ∙ all.0))
      | inr e ↦ e
    ],
    not_news id sent_ids ms h all.1,
  )

  -- If a send comes back with an id, then whatever fewer sends than the set's capacity follow, and
  -- whatever the socket hands over after them, no message with that id is handed on.
  pub send-not_echoed :
      (parse_int : String → Option ℕ) (raced : Raced) (m : OutboundMessage) (c : Channel)
      (id : String)
      → (send code_points timed_out raced m c).0 ≡ returned id
      → (sends : List (Raced × OutboundMessage)) → length sends < c.sent_ids.capacity
      → (t : UpsertType) (ms : List UpsertMessage)
      → All
          (λ n. str_eq id n.id ≡ false)
          (handle_upsert parse_int
            (send_all code_points timed_out sends (send code_points timed_out raced m c).1).sent_ids
            t
            ms)
  unfolding add_all
  send-not_echoed parse_int raced m c id won sends few t ms =
      let c' = (send code_points timed_out raced m c).1 in
      let first =
        subst (λ a. c'.sent_ids ≡ add_all (recorded a) c.sent_ids) won (send-records raced m c) in
      let kept = send_all-records sends c' ∙ ap (add_all (replies sends c')) first in
      not_news id _ _
        (subst (λ r. has id r ≡ true) (sym kept)
          (add_all-has id (replies sends c') c.sent_ids
            (omega (arith, length-replies sends c', few))))
        (handle_upsert-IsNews parse_int _ t ms)

mark_marked : (t : String) → starts_with t agent_marker ≡ true → mark_agent_text t ≡ t
unfolding mark_agent_text
mark_marked t h = rw h refl

mark_unmarked :
    (t : String)
    → starts_with t agent_marker ≡ false
    → mark_agent_text t ≡ String.◌++◌ agent_marker t
unfolding mark_agent_text
mark_unmarked t h = rw h refl

-- A text that is marked twice is marked once.
mark_agent_text_idem : (t : String) → mark_agent_text (mark_agent_text t) ≡ mark_agent_text t
mark_agent_text_idem t = elim (Bool-cases (starts_with t agent_marker)) [
  | inl e ↦ ap mark_agent_text (mark_marked t e)
  | inr e ↦
      ap mark_agent_text (mark_unmarked t e)
      ∙ mark_marked _ (starts_with-append agent_marker t)
      ∙ sym (mark_unmarked t e)
]
