-- ===== src/Serving/Answers.antt =====
-- Which messages are answered, and how often (server/message.go).
use gomcp.Prelude.{
  ℕ, ◌+◌, ◌≡◌, refl, ap, ◌∙◌, Bool, true, false, Option, none, some, List, [], ◌∷◌, map, subst,
}
use gomcp.Serving.Json.{Json, array, Items, end, item}
use gomcp.Serving.Request.{
  Request, Method, method_of, new_context, initialize, shutdown, ping, tools_list, tools_call,
  resources_list, resources_read, resources_subscribe, resources_unsubscribe, templates_list,
  prompts_list, prompts_get, set_level, complete, create_message, roots_list, initialized_note,
  cancelled_note, progress_note, message_note, resources_changed_note, resources_updated_note,
  tools_changed_note, prompts_changed_note, roots_changed_note, unknown,
}
use gomcp.Serving.State.{ServerImpl, Moment}
use gomcp.Serving.Initialize.{ServerSurroundings}
use gomcp.Serving.Handlers.{HandlerResult, answered, unencodable, invalid_parameters, failed}
use gomcp.Serving.Dispatch.{
  Response, success, failure, Output, nothing, batch, tree, Reply, silent, goes_on, internal_error,
  parse_error, added_answer, batch_of, handle_message, success_or_silence, process,
  handle_single_message, process_batch_items, handle_batch_message,
}

-- The notifications that are handled without an answer, whether they have an id or not.
unfoldable pub asks : Method → Bool
asks initialized_note = false
asks cancelled_note = false
asks progress_note = false
asks roots_changed_note = false
asks method = true

-- The id that an answer carries.
unfoldable pub id_of : Response → Option Json
id_of (success id v) = some id
id_of (failure id code) = id

-- The elements of a batch that are requests with ids, whose ids are listed, or notifications that
-- are handled without an answer.
pub data Asks : Items → List Json → Type 0 where
  asks_nothing : Asks end []
  asking :
      (v : Json) (rest : Items) (r : Request) (id : Json) (ids : List Json)
      → new_context v ≡ some r
      → r.id ≡ some id
      → asks (method_of r.method) ≡ true
      → Asks rest ids
      → Asks (item v rest) (id ∷ ids)
  telling :
      (v : Json) (rest : Items) (r : Request) (ids : List Json)
      → new_context v ≡ some r
      → asks (method_of r.method) ≡ false
      → Asks rest ids
      → Asks (item v rest) ids

GoesOn : Reply → Type 0
GoesOn reply = (outcome : HandlerResult) × (reply ≡ goes_on outcome)

IdOf : Option Json → Option Response → Type 0
IdOf id response = (answer : Response) × (response ≡ some answer) × (id_of answer ≡ id)

success_or_silence-IdOf :
    (id : Json) (outcome : HandlerResult) → IdOf (some id) (success_or_silence (some id) outcome)
unfolding IdOf success_or_silence id_of
success_or_silence-IdOf id (answered v) = (success id v, refl, refl)
success_or_silence-IdOf id unencodable = (failure (some id) internal_error, refl, refl)
success_or_silence-IdOf id invalid_parameters = (_, refl, refl)
success_or_silence-IdOf id failed = (_, refl, refl)

added_answer-IdOf :
    (id : Json) (response : Option Response) (rest : List Response)
    → IdOf (some id) response
    → map id_of (added_answer response rest) ≡ some id ∷ map id_of rest
unfolding IdOf
added_answer-IdOf id response rest (answer, e, h) = rw (e, h) refl

-- What the transport is given for answers with these ids.
pub data Carries : List (Option Json) → Output → Type 0 where
  carries_nothing : Carries [] nothing
  carries_batch :
      (first : Response) (rest : List Response)
      → Carries (map id_of (first ∷ rest)) (batch (first ∷ rest))

batch_of-Carries : (responses : List Response) → Carries (map id_of responses) (batch_of responses)
batch_of-Carries [] = carries_nothing
batch_of-Carries (first ∷ rest) = carries_batch first rest

module _ {H : Type 0} (around : ServerSurroundings)
    (answers : Method → ServerImpl H → Option Json → HandlerResult) where
  process-GoesOn :
      (at : Moment) (m : Method) (params : Option Json) (s : ServerImpl H)
      → asks m ≡ true
      → GoesOn (process around answers at m params s).1
  unfolding GoesOn process asks
  process-GoesOn at initialize params s h = (_, refl)
  process-GoesOn at shutdown params s h = (_, refl)
  process-GoesOn at ping params s h = (_, refl)
  process-GoesOn at tools_list params s h = (_, refl)
  process-GoesOn at tools_call params s h = (_, refl)
  process-GoesOn at resources_list params s h = (_, refl)
  process-GoesOn at resources_read params s h = (_, refl)
  process-GoesOn at resources_subscribe params s h = (_, refl)
  process-GoesOn at resources_unsubscribe params s h = (_, refl)
  process-GoesOn at templates_list params s h = (_, refl)
  process-GoesOn at prompts_list params s h = (_, refl)
  process-GoesOn at prompts_get params s h = (_, refl)
  process-GoesOn at set_level params s h = (_, refl)
  process-GoesOn at complete params s h = (_, refl)
  process-GoesOn at create_message params s h = (_, refl)
  process-GoesOn at roots_list params s h = (_, refl)
  process-GoesOn at initialized_note params s h = cc
  process-GoesOn at cancelled_note params s h = cc
  process-GoesOn at progress_note params s h = cc
  process-GoesOn at message_note params s h = (_, refl)
  process-GoesOn at resources_changed_note params s h = (_, refl)
  process-GoesOn at resources_updated_note params s h = (_, refl)
  process-GoesOn at tools_changed_note params s h = (_, refl)
  process-GoesOn at prompts_changed_note params s h = (_, refl)
  process-GoesOn at roots_changed_note params s h = cc
  process-GoesOn at unknown params s h = (_, refl)

  process-silent :
      (at : Moment) (m : Method) (params : Option Json) (s : ServerImpl H)
      → asks m ≡ false
      → (process around answers at m params s).1 ≡ silent
  unfolding process asks
  process-silent at initialize params s h = cc
  process-silent at shutdown params s h = cc
  process-silent at ping params s h = cc
  process-silent at tools_list params s h = cc
  process-silent at tools_call params s h = cc
  process-silent at resources_list params s h = cc
  process-silent at resources_read params s h = cc
  process-silent at resources_subscribe params s h = cc
  process-silent at resources_unsubscribe params s h = cc
  process-silent at templates_list params s h = cc
  process-silent at prompts_list params s h = cc
  process-silent at prompts_get params s h = cc
  process-silent at set_level params s h = cc
  process-silent at complete params s h = cc
  process-silent at create_message params s h = cc
  process-silent at roots_list params s h = cc
  process-silent at initialized_note params s h = refl
  process-silent at cancelled_note params s h = refl
  process-silent at progress_note params s h = refl
  process-silent at message_note params s h = cc
  process-silent at resources_changed_note params s h = cc
  process-silent at resources_updated_note params s h = cc
  process-silent at tools_changed_note params s h = cc
  process-silent at prompts_changed_note params s h = cc
  process-silent at roots_changed_note params s h = refl
  process-silent at unknown params s h = cc

  -- A message that decodes to a request with an id, whose method is no notification that is handled
  -- without an answer, is answered exactly once, with a result or an error that carries its id; a
  -- message whose method is such a notification is not answered, whether it has an id or not; and a
  -- message that does not decode is answered by a parse error without an id.
  pub handle_single_message-answers :
      (at : Moment) (v : Json) (s : ServerImpl H)
      → ((r : Request) (id : Json)
          → new_context v ≡ some r
          → r.id ≡ some id
          → asks (method_of r.method) ≡ true
          → (answer : Response) × ((handle_single_message around answers at v s).1 ≡ some answer)
            × (id_of answer ≡ some id))
        × ((r : Request)
            → new_context v ≡ some r
            → asks (method_of r.method) ≡ false
            → (handle_single_message around answers at v s).1 ≡ none)
        × (new_context v ≡ none
            → handle_single_message around answers at v s ≡ (s, some (failure none parse_error)))
  unfolding handle_single_message GoesOn IdOf
  handle_single_message-answers at v s = (
    λ r id decoded has_id h.
        let (outcome, e) = process-GoesOn at (method_of r.method) r.params s h in
        let (answer, f, g) = success_or_silence-IdOf id outcome in
        rw (decoded, has_id, e) (answer, f, g),
    λ r decoded h. rw (decoded, process-silent at (method_of r.method) r.params s h) refl,
    λ decoded. rw decoded refl,
  )

  -- The answers to the elements of a batch carry the ids of its requests, in their order; its
  -- notifications have none.
  pub process_batch_items-ids :
      (moments : ℕ → Moment) (n : ℕ) (vs : Items) (ids : List Json) (s : ServerImpl H)
      → Asks vs ids
      → map id_of (process_batch_items around answers moments n vs s).1 ≡ map some ids
  unfolding process_batch_items IdOf
  process_batch_items-ids moments n vs ids s asks_nothing = refl
  process_batch_items-ids moments n vs ids s (asking v rest r id after decoded has_id h more) =
      added_answer-IdOf id (handle_single_message around answers (moments n) v s).1
        (process_batch_items around answers moments (n + 1) rest
          (handle_single_message around answers (moments n) v s).0).1
        ((handle_single_message-answers (moments n) v s).0 r id decoded has_id h)
      ∙ ap (◌∷◌ (some id)) (
          process_batch_items-ids moments (n + 1) rest after
            (handle_single_message around answers (moments n) v s).0 more)
  process_batch_items-ids moments n vs ids s (telling v rest r after decoded h more) =
      rw ((handle_single_message-answers (moments n) v s).1 r decoded h) (
        process_batch_items-ids moments (n + 1) rest after
          (handle_single_message around answers (moments n) v s).0 more)

  -- A batch of requests with ids and of notifications that are handled without an answer is answered
  -- by one list with an answer for each request, in the order of the requests and with their ids; by
  -- nothing where there is no request, never by an empty list.
  pub handle_message-batch :
      (moments : ℕ → Moment) (v : Json) (vs : Items) (ids : List Json) (s : ServerImpl H)
      → Asks (item v vs) ids
      → Carries
          (map some ids)
          (handle_message around answers moments (tree (array (item v vs))) s).1
  unfolding handle_message handle_batch_message
  handle_message-batch moments v vs ids s asked =
      subst
        (λ carried.
          Carries carried (batch_of (process_batch_items around answers moments 0 (item v vs) s).1))
        (process_batch_items-ids moments 0 (item v vs) ids s asked)
        (batch_of-Carries (process_batch_items around answers moments 0 (item v vs) s).1)
