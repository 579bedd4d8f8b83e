-- ===== src/Server/Mux.antt =====
-- server/handler_mux.go: the handlers registered by task type. A nil map holds nothing, so it is the
-- empty list; a nil registry or handler is `none`.
use go_task_engine.Prelude.{
  ◌≡◌, ◌∙◌, refl, true, false, Option, none, some, List, [], ◌∷◌, if◌then◌else◌, arith, is_some,
}
use go_task_engine.Prelude.Text.{Text, text_eq, text_eq_iff}
use go_task_engine.Errors.{Error, is, plain, wrap, sentinel, handler_exists, unknown_task_type}
use go_task_engine.Model.{TaskMessage}
use go_task_engine.Server.Process.{Limit}

module _ {H : Type 0} where
  -- `handlers[taskType]`
  unfoldable pub find : Text → List (Text × H) → Option H
  find t [] = none
  find t ((u, h) ∷ hs) = if text_eq u t then some h else find t hs

  -- Handle, on a registry that is there.
  unfoldable pub handle_in : Text → Option H → List (Text × H) → Option Error × List (Text × H)
  unfolding text_eq find
  handle_in t none hs =
      if text_eq t []
      then (some (plain "task type cannot be empty"), hs)
      else (some (plain "task handler cannot be nil"), hs)
  handle_in t (some h) hs =
      if text_eq t []
      then (some (plain "task type cannot be empty"), hs)
      else if is_some (find t hs)
      then (some (wrap "task type" (sentinel handler_exists)), hs)
      else (none, (t, h) ∷ hs)

  unfoldable pub handle :
      Text → Option H → Option (List (Text × H)) → Option Error × Option (List (Text × H))
  unfolding handle_in
  handle t h none = (some (plain "handler mux is nil"), none)
  handle t h (some hs) = let (e, hs') = handle_in t h hs in (e, some hs')

  -- Registrations one after another, whose errors the caller drops.
  unfoldable pub handle_all : List (Text × Option H) → List (Text × H) → List (Text × H)
  unfolding handle_in
  handle_all [] hs = hs
  handle_all ((t, h) ∷ rs) hs = handle_all rs (handle_in t h hs).1

  -- The first of the registrations for a type that has a handler.
  abbrev pub first : Text → List (Text × Option H) → Option H
  first t [] = none
  first t ((u, none) ∷ rs) = first t rs
  first t ((u, some h) ∷ rs) = if text_eq u t then some h else first t rs

  abbrev or_else : Option H → Option H → Option H
  or_else none o = o
  or_else (some h) o = some h

  find-handle :
      (t u : Text) (h : Option H) (rs : List (Text × Option H)) (hs : List (Text × H))
      → text_eq t [] ≡ false
      → or_else (find t (handle_in u h hs).1) (first t rs)
        ≡ or_else (find t hs) (first t ((u, h) ∷ rs))
  unfolding handle_in find
  find-handle t u none rs hs e = ground arith
  find-handle t u (some h) rs hs e = ground (arith, text_eq_iff u t)

  find-handle_all :
      (t : Text) (rs : List (Text × Option H)) (hs : List (Text × H))
      → text_eq t [] ≡ false
      → find t (handle_all rs hs) ≡ or_else (find t hs) (first t rs)
  unfolding handle_all
  find-handle_all t [] hs e = ground arith
  find-handle_all t ((u, h) ∷ rs) hs e =
      find-handle_all t rs (handle_in u h hs).1 e ∙ find-handle t u h rs hs e

-- The type of handlers: from the context, the message and the store to an error or nil, with the
-- message and the store as the handler left them.
abbrev pub Handler : Type 0 → Type 0
Handler S = Limit → TaskMessage → S → (Option Error × TaskMessage) × S

module _ {S : Type 0} where
  unfoldable pub call_found : Option (Handler S) → Handler S
  call_found none = λ l msg s. ((some (wrap "task type" (sentinel unknown_task_type)), msg), s)
  call_found (some h) = h

  -- ProcessTask of the registry.
  unfoldable pub process_task : Option (List (Text × Handler S)) → Handler S
  unfolding call_found find
  process_task none = λ l msg s. ((some (sentinel unknown_task_type), msg), s)
  process_task (some hs) = λ l msg s. call_found (find msg.type hs) l msg s

  -- What becomes of a task with this handler: the handler's answer, or an error in the chain of which
  -- ErrUnknownTaskType is, with the message and the store as they were.
  abbrev pub Answers :
      Option (Handler S) → Limit → TaskMessage → S → (Option Error × TaskMessage) × S → Type 0
  Answers (some h) l msg s p = p ≡ h l msg s
  Answers none l msg s p = (e : Error) × (p ≡ ((some e, msg), s)) × (is e unknown_task_type ≡ true)

  call-Answers :
      (o : Option (Handler S)) (l : Limit) (msg : TaskMessage) (s : S)
      → Answers o l msg s (call_found o l msg s)
  unfolding call_found is
  call-Answers none l msg s = (_, refl, refl)
  call-Answers (some h) l msg s = refl

  -- A task goes to the handler that was registered first for its type, whatever registrations were
  -- made on a new registry, also for types that had a handler and with handlers that are nil, which
  -- change nothing; without such a handler it fails with ErrUnknownTaskType. The type is not empty.
  pub process_task-first :
      (rs : List (Text × Option (Handler S))) (l : Limit) (msg : TaskMessage) (s : S)
      → text_eq msg.type [] ≡ false
      → Answers (first msg.type rs) l msg s (process_task (some (handle_all rs [])) l msg s)
  unfolding process_task find
  process_task-first rs l msg s e =
      rw (find-handle_all msg.type rs [] e) (call-Answers (first msg.type rs) l msg s)
