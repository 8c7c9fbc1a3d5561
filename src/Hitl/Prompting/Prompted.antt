-- ===== src/Hitl/Prompting/Prompted.antt =====
-- The whole pass over the waiting actions.
use ezra.Common.{
  ℕ, zero, suc, String, Bool, true, not, ◌&&◌, ◌||◌, Option, none, some, List, [], ◌∷◌, ◌++◌,
  str_eq, any-select, any-ext, all, select, Attempt, returned, threw, ◌≡◌, refl, arith, eq_refl,
  sym, ◌∙◌, inr,
}
use ezra.Common.Sorting.{sort}
use ezra.Common.Sorting.Tests.{any-sort}
use ezra.Hitl.Value.{Value}
use ezra.Hitl.Table.{PendingAction, Table, is_pending, sooner, get_pending_actions_for_conversation}
use ezra.Hitl.Prompting.{
  Office, is_unstamped, send_prompt, sent_entry, record_approval_send, give_up, take_receipt,
  prompt_one, prompt_all, send_approval_prompts, prompt_text,
}
use ezra.Hitl.Prompting.Stamps.{
  all_logged, is_waiting, buried, among, all_handled, Tried, give_up-Leads, logged-stamped,
  logged-grows, record_send-logs, handled-stamped,
}
use ezra.Tools.{ToolRegistry}
use ezra.Transport.SendClass.{approval_send_id}
use ezra.Transport.Deliver.{Message, DeadLetter, put_on_wire}
use ezra.Orchestration.Sweep.Listed.{covered, select-covered}
use ezra.Crash.{Leads-map, Leads, go_on-Leads, go_on, pure, ended, rescue, catch, ◌>>=◌, effect}

module _ {W V : Type 0} (transport_send : Message → W → Attempt String × W)
    (stringify : Value → String) (registry : Option (ToolRegistry V)) (dead_letter : Bool)
    (conversation : String) where
  abbrev pub IsLogged : Office W → Type 0
  IsLogged s = all_logged s ≡ true

  -- Each stamp is logged and the rows to come are the only ones not handled.
  abbrev After : {A : Type 0} → List PendingAction → A → Office W → Type 0
  After rows _ t = (all_logged t ≡ true) × (all_handled conversation t.net.dead rows t.table ≡ true)

  -- What the send came to.
  abbrev sent : Message → Office W → Attempt String × W → Attempt String × Office W
  sent m s r = (
    (put_on_wire transport_send m s.net r).0,
    record s { net = (put_on_wire transport_send m s.net r).1 },
  )

  sent-Leads :
      (a : PendingAction) (rows : List PendingAction) (m : Message) (r : Attempt String × W) (n : ℕ)
      (s : Office W)
      → all_logged s ≡ true
      → all_handled conversation s.net.dead (a ∷ rows) s.table ≡ true
      → Leads IsLogged (Tried transport_send stringify registry dead_letter conversation a rows) (
          rescue
            (give_up transport_send stringify registry dead_letter conversation a)
            (go_on (λ id. pure (some id)) (ended (sent m s r).0, n, (sent m s r).1)))
  sent-Leads a rows m (returned id, far) n s l h = (l, h)
  sent-Leads a rows m (threw e, far) n s l h =
      give_up-Leads transport_send stringify registry dead_letter conversation a rows e n
        (record s { net = record (s.net) { far = far } }) l h

  attempt-Leads :
      (a : PendingAction) (rows : List PendingAction) (n : ℕ) (s : Office W)
      → all_logged s ≡ true
      → all_handled conversation s.net.dead (a ∷ rows) s.table ≡ true
      → Leads IsLogged (Tried transport_send stringify registry dead_letter conversation a rows) (
          catch
            (send_prompt transport_send stringify registry dead_letter conversation a
              >>= (λ id. pure (some id)))
            (give_up transport_send stringify registry dead_letter conversation a)
            n
            s)
  attempt-Leads a rows zero s l h = l
  attempt-Leads a rows (suc n) s l h =
      sent-Leads a rows
        (record {
          conversation_id = conversation;
          text = prompt_text transport_send stringify registry dead_letter conversation a;
        })
        _ n s l h

  record-Leads :
      (a : PendingAction) (rows : List PendingAction) (id : String) (n : ℕ) (s : Office W)
      → all_logged s ≡ true
      → all_handled conversation s.net.dead (a ∷ rows) s.table ≡ true
      → Leads IsLogged
          (After rows)
          (record_approval_send transport_send stringify registry dead_letter conversation a id n s)
  unfolding record_approval_send
  record-Leads a rows id zero s l h = l
  record-Leads a rows id (suc n) s l h =
      let e = sent_entry transport_send stringify registry dead_letter conversation a in
      (
        logged-stamped a.action_id id _ s.table
            (record_send-logs e (approval_send_id a.action_id) s.net.log
              (inr (eq_refl (approval_send_id a.action_id))))
            (logged-grows e s.net.log s.table l),
        handled-stamped conversation a.action_id id a s.net.dead rows s.table refl h,
      )

  take_receipt-Leads :
      (a : PendingAction) (rows : List PendingAction) (o : Option String) (n : ℕ) (s : Office W)
      → Tried transport_send stringify registry dead_letter conversation a rows o s
      → Leads IsLogged
          (After rows)
          (take_receipt transport_send stringify registry dead_letter conversation a o n s)
  unfolding take_receipt
  take_receipt-Leads a rows none n s h = h
  take_receipt-Leads a rows (some id) n s h =
      go_on-Leads IsLogged _ _ _
        (record_approval_send transport_send stringify registry dead_letter conversation a id n s)
        (record-Leads a rows id n s h.0 h.1) (λ _ n s h. h)

  prompt_all-Leads :
      (rows : List PendingAction) (n : ℕ) (s : Office W)
      → all_logged s ≡ true
      → all_handled conversation s.net.dead rows s.table ≡ true
      → Leads IsLogged
          (After [])
          (prompt_all transport_send stringify registry dead_letter conversation rows n s)
  unfolding prompt_all prompt_one
  prompt_all-Leads [] n s l h = (l, h)
  prompt_all-Leads (a ∷ rows) n s l h =
      go_on-Leads IsLogged (After rows) _ _ _
        (go_on-Leads IsLogged _ _ _ _ (attempt-Leads a rows n s l h)
          (λ o n s h. take_receipt-Leads a rows o n s h))
        (λ ids n s h.
          go_on-Leads IsLogged (After []) (After []) (λ more. pure (ids ++ more))
            (prompt_all transport_send stringify registry dead_letter conversation rows n s)
            (prompt_all-Leads rows n s h.0 h.1) (λ more n s h. h))

  abbrev found : Table → List PendingAction
  found t = select is_unstamped (get_pending_actions_for_conversation conversation t)

  -- A waiting row of the table is found.
  among-found :
      (t : Table) (action : String)
      → among (found t) action ≡ among (select (is_waiting conversation) t) action
  unfolding get_pending_actions_for_conversation
  among-found t action =
      any-select is_unstamped (λ y. str_eq action y.action_id)
        (sort (sooner (λ r. r.created_at))
          (select (λ r. str_eq r.conversation_id conversation && is_pending r.status) t))
      ∙ any-sort (sooner (λ r. r.created_at)) (λ y. is_unstamped y && str_eq action y.action_id)
          (select (λ r. str_eq r.conversation_id conversation && is_pending r.status) t)
      ∙ any-select (λ r. str_eq r.conversation_id conversation && is_pending r.status)
          (λ y. is_unstamped y && str_eq action y.action_id) t
      ∙ any-ext _ (λ y. is_waiting conversation y && str_eq action y.action_id) (λ y. ground arith)
          t
      ∙ sym (any-select (is_waiting conversation) (λ y. str_eq action y.action_id) t)

  found-handled :
      (dead : List DeadLetter) (t rows : Table)
      → covered (is_waiting conversation) (select (is_waiting conversation) t) rows ≡ true
      → all_handled conversation dead (found t) rows ≡ true
  found-handled dead t [] h = refl
  found-handled dead t (r ∷ rows) h =
      ground (arith, among-found t r.action_id, found-handled dead t rows)

  -- The prompt of every waiting row is among the dead letters.
  abbrev pub AllPrompted : Office W → Type 0
  AllPrompted s =
      all (λ r. not (is_waiting conversation r) || buried s.net.dead r.action_id) s.table ≡ true

  AllPrompted-end :
      (dead : List DeadLetter) (t : Table)
      → all_handled conversation dead [] t ≡ true
      → all (λ r. not (is_waiting conversation r) || buried dead r.action_id) t ≡ true
  AllPrompted-end dead [] h = refl
  AllPrompted-end dead (r ∷ t) h = ground (arith, AllPrompted-end dead t)

  query-Leads :
      (n : ℕ) (s : Office W)
      → all_logged s ≡ true
      → Leads IsLogged
          (λ rows t. After rows rows t)
          (effect (λ s. (returned (found s.table), s)) n s)
  query-Leads zero s l = l
  query-Leads (suc n) s l = (
    l,
    found-handled s.net.dead s.table s.table (select-covered (is_waiting conversation) s.table),
  )

  -- The outcome of a pass that returns.
  abbrev pub Prompted : List String → Office W → Type 0
  Prompted _ t = (all_logged t ≡ true) × AllPrompted t

  -- If before the pass each stamped row has its send in the log, then the same holds wherever the pass
  -- stops; and if it returns, every pending action of the conversation has its prompt, or the prompt
  -- is among the dead letters.
  pub send_approval_prompts-Leads :
      (n : ℕ) (s : Office W)
      → all_logged s ≡ true
      → Leads IsLogged Prompted
          (send_approval_prompts transport_send stringify registry dead_letter conversation n s)
  unfolding send_approval_prompts
  send_approval_prompts-Leads n s l =
      go_on-Leads IsLogged (λ rows t. After rows rows t) Prompted
        (prompt_all transport_send stringify registry dead_letter conversation)
        (effect (λ s. (returned (found s.table), s)) n s) (query-Leads n s l)
        (λ rows n s h.
          Leads-map IsLogged (After []) Prompted
            (λ _ t h. (h.0, AllPrompted-end t.net.dead t.table h.1))
            (prompt_all transport_send stringify registry dead_letter conversation rows n s)
            (prompt_all-Leads rows n s h.0 h.1))
