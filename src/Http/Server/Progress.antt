-- ===== src/Http/Server/Progress.antt =====
-- `onMessage` ends: each request but the first takes bytes from the buffer.
use c_cloud_storage.Prelude.{
  ℕ, zero, suc, ◌+◌, ◌-◌, ◌≤◌, ◌<◌, ◌≡◌, ◌≢◌, refl, sym, subst, ap, ◌∙◌, Bool, true, false, not,
  ◌||◌, ◌&&◌, Option, none, some, length, ◌==◌, if◌then◌else◌, Bytes, arith, Bool-cases, inl, inr,
  ◌⊎◌, length-drop,
}
use c_cloud_storage.Prelude.Number.{ℤ}
use c_cloud_storage.Tcp.Buffer.{Buffer, ◌>>=◌, readable_bytes, peek_all_as_string}
use c_cloud_storage.Tcp.Buffer.Bounds.{IsValid}
use c_cloud_storage.Tcp.Buffer.Contents.{retrieve_lem}
use c_cloud_storage.Tcp.Buffer.Queue.{length-contents}
use c_cloud_storage.Tcp.Connection.{Connection, is_connected, send, handle_close}
use c_cloud_storage.Tcp.Connection.Frame.{OnSome}
use c_cloud_storage.Http.Request.{HttpRequest}
use c_cloud_storage.Http.Response.{HttpResponse, html_type, create}
use c_cloud_storage.Http.Context
use c_cloud_storage.Http.Context.{HttpContext, Parsed, reset_context_status, get_complete_request}
use c_cloud_storage.Http.Context.Headers.{next_line}
use c_cloud_storage.Http.Context.Incremental.{parse_incremental}
use c_cloud_storage.Http.Context.Progress.{parse_incremental_total}
use c_cloud_storage.Http.Server.{
  HttpServer, HttpResponseCallback, Handled, on_request, with_context, wants_close,
}
use c_cloud_storage.Http.Server.Message.{
  is_text, answers_file, Stage, stopped, goes_on, Outcome, finished, aborted, unending, out_of_fuel,
  offer_part, offered, accept, take_consumed, parsed_conn, parse_more, is_upload_part,
  bad_request_text, is_requested, request_of, next_request, after_request, serve, after_stage,
  context_of, message_loop, on_message,
}
use c_cloud_storage.Http.Context.Idle.{parse_incremental_idle}
use c_cloud_storage.Http.Server.Frame.{IsQuiet, Keeps, with_context-Keeps, on_request-Keeps}

-- A header has still to come, and the request is not complete.
abbrev IsFresh : Connection → Type 0
IsFresh c =
    ((context_of c).headers_complete ≡ false) × (get_complete_request (context_of c) ≡ false)

abbrev Ends : Outcome → Type 0
Ends out_of_fuel = ⊥
Ends unending = ⊥
Ends _ = Unit {0}

abbrev EndsBelow : ℕ → (Connection → Outcome) → Type 0
EndsBelow m again =
    (d : Connection)
    → IsValid d.read_buffer
    → IsFresh d
    → readable_bytes d.read_buffer < m
    → Ends (again d)

-- The callback answers with texts.
abbrev pub AnswersTexts : HttpResponseCallback → Type 0
AnswersTexts cb =
    (c : Connection) (r : HttpResponse) (h : Handled)
    → cb c r ≡ some h
    → h.response.body_type ≡ some html_type

texts-answers_file :
    (s : HttpServer) (request : HttpRequest) (c : Connection)
    → AnswersTexts s.response_callback
    → answers_file s request c ≡ false
texts-answers_file s request c texts =
    at (s.response_callback c (create (wants_close request))) refl
  where
    at :
        (o : Option Handled)
        → s.response_callback c (create (wants_close request)) ≡ o
        → (elim o [ none ↦ false | some h ↦ h.done && not (is_text h.response.body_type) ]) ≡ false
    at none e = refl
    at (some h) e = ground (arith, texts c (create (wants_close request)) h e)

-- After a reset the context is a new one, whatever it was.
reset-IsFresh : (c : Connection) → IsFresh (with_context reset_context_status c)
unfolding reset_context_status
reset-IsFresh c = at c.context refl
  where
    at : (o : Option HttpContext) → c.context ≡ o → IsFresh (with_context reset_context_status c)
    at none e = (ground (arith, e), ground (arith, e))
    at (some ctx) e = (ground (arith, e), ground (arith, e))

if-Ends : (b : Bool) (x y : Outcome) → Ends x → Ends y → Ends (if b then x else y)
if-Ends true x y h k = h
if-Ends false x y h k = k

next-Ends :
    (m : ℕ) (again : Connection → Outcome) (d : Connection)
    → EndsBelow m again
    → IsValid d.read_buffer
    → readable_bytes d.read_buffer < m
    → Ends (next_request again d)
next-Ends m again d h valid small =
    let same = with_context-Keeps reset_context_status d in
    if-Ends (is_connected d.state) _ _
      (if-Ends (readable_bytes d.read_buffer == 0) _ _ tt (
        h (with_context reset_context_status d) (subst IsValid (sym same) valid) (reset-IsFresh d)
          (subst (λ b. readable_bytes b < m) (sym same) small)))
      tt

serve-Ends :
    (m : ℕ) (s : HttpServer) (files : ℤ → Bytes) (again : Connection → Outcome) (c : Connection)
    → IsQuiet s.response_callback
    → AnswersTexts s.response_callback
    → EndsBelow m again
    → IsValid c.read_buffer
    → (is_requested c ≡ true → readable_bytes c.read_buffer < m)
    → Ends (serve s files again c)
serve-Ends m s files again c quiet texts h valid small = elim (Bool-cases (is_requested c)) [
  | inl e ↦ rw e (
      served (on_request s files (request_of c) c) (on_request-Keeps s files (request_of c) c quiet)
        (small e))
  | inr e ↦ rw e tt
]
  where
    served :
        (o : Option Connection)
        → OnSome (Keeps c) o
        → readable_bytes c.read_buffer < m
        → Ends (after_request (answers_file s (request_of c) c) again o)
    served none k l =
        subst (λ b. Ends (if b then unending else aborted))
          (sym (texts-answers_file s (request_of c) c texts)) tt
    served (some d) k l =
        next-Ends m again d h (subst IsValid (sym k) valid)
          (subst (λ b. readable_bytes b < m) (sym k) l)

-- What is left after the parser: a valid buffer, shorter than `m` if a request is complete.
abbrev IsLeft : ℕ → Stage → Type 0
IsLeft m (stopped d) = Unit {0}
IsLeft m (goes_on d) =
    IsValid d.read_buffer × (is_requested d ≡ true → readable_bytes d.read_buffer < m)

stage-Ends :
    (m : ℕ) (s : HttpServer) (files : ℤ → Bytes) (again : Connection → Outcome) (o : Option Stage)
    → IsQuiet s.response_callback
    → AnswersTexts s.response_callback
    → EndsBelow m again
    → OnSome (IsLeft m) o
    → Ends (after_stage s files again o)
stage-Ends m s files again none quiet texts h l = tt
stage-Ends m s files again (some (stopped d)) quiet texts h l = tt
stage-Ends m s files again (some (goes_on d)) quiet texts h l =
    serve-Ends m s files again d quiet texts h l.0 l.1

offer-IsLeft :
    (m : ℕ) (s : HttpServer) (part : Bool) (c : Connection)
    → IsQuiet s.response_callback
    → IsLeft m (goes_on c)
    → OnSome (IsLeft m) (offer_part s part c)
offer-IsLeft m s false c quiet l = l
offer-IsLeft m s true c quiet l = at (s.response_callback c (create false)) refl
  where
    offered-IsLeft :
        (h : Handled)
        → s.response_callback c (create false) ≡ some h
        → (b : Bool) → IsLeft m (if b then goes_on h.conn else stopped h.conn)
    offered-IsLeft h e false = tt
    offered-IsLeft h e true =
        let (buffer, requested) = quiet c (create false) h e in
        (
          subst IsValid (sym buffer) l.0,
          λ k. subst (λ b. readable_bytes b < m) (sym buffer) (l.1 (sym requested ∙ k)),
        )

    at :
        (o : Option Handled)
        → s.response_callback c (create false) ≡ o
        → OnSome (IsLeft m) (o >>= λ h. some (offered h))
    at none e = tt
    at (some h) e = offered-IsLeft h e h.done

pub take_consumed_lem :
    (n : ℕ) (b : Buffer)
    → IsValid b
    → n ≤ readable_bytes b
    → (d : Buffer) × (take_consumed n b ≡ some d)
      × IsValid d
      × (readable_bytes d ≡ readable_bytes b - n)
take_consumed_lem n b v h = elim (Bool-cases (n == 0)) [
  | inl e ↦ (b, ground (arith, e), v, ground (arith, e))
  | inr e ↦
      let (d, f, w, len, same) = retrieve_lem n v h in
      (
        d,
        ground (arith, e, f),
        w,
        omega (
          arith,
          length-contents w,
          length-contents v,
          ap length same,
          length-drop n (peek_all_as_string b),
        ),
      )
]

-- What the parser leaves, by what it consumed.
accept-IsLeft :
    (m : ℕ) (s : HttpServer) (p : Parsed) (c : Connection)
    → IsQuiet s.response_callback
    → IsValid c.read_buffer
    → p.consumed ≤ readable_bytes c.read_buffer
    → (p.ok ≡ true
        → get_complete_request p.ctx ≡ true
        → readable_bytes c.read_buffer - p.consumed < m)
    → OnSome (IsLeft m) (accept s p c)
accept-IsLeft m s p c quiet valid within small = at p.ok refl
  where
    Accepted : Bool → Option Stage
    Accepted ok =
        if ok
        then (do
          b ← take_consumed p.consumed c.read_buffer
          offer_part s (is_upload_part p.ctx) (parsed_conn p.ctx b c))
        else (do
          d ← send bad_request_text (parsed_conn p.ctx c.read_buffer c)
          some (stopped (handle_close d)))

    refused_end :
        (o : Option Connection) → OnSome (IsLeft m) (o >>= λ d. some (stopped (handle_close d)))
    refused_end none = tt
    refused_end (some d) = tt

    at : (ok : Bool) → p.ok ≡ ok → OnSome (IsLeft m) (Accepted ok)
    at false e = refused_end (send bad_request_text (parsed_conn p.ctx c.read_buffer c))
    at true e =
        let (b, f, v, left) = take_consumed_lem p.consumed c.read_buffer valid within in
        subst (OnSome (IsLeft m))
          (sym (ap (λ o. o >>= λ b. offer_part s (is_upload_part p.ctx) (parsed_conn p.ctx b c)) f))
          (offer-IsLeft m s (is_upload_part p.ctx) (parsed_conn p.ctx b c) quiet
            (v, λ k. omega (arith, left, small e k)))

-- The bytes that a round begins with: below `m`, or one more where a header has still to come.
abbrev Room : ℕ → HttpContext → ℕ → Type 0
Room m ctx n =
    ((ctx.headers_complete ≡ false) × (get_complete_request ctx ≡ false) × (n < suc m)) ⊎ (n < m)

whole :
    (m : ℕ) (ctx : HttpContext) (n : ℕ)
    → (not ctx.headers_complete || not ctx.body_complete) ≡ false
    → Room m ctx n
    → n < m
whole m ctx n e (inl (going, open_request, small)) = ground (arith, going, e)
whole m ctx n e (inr small) = small

consumed-small :
    (m : ℕ) (ctx : HttpContext) (part : Bytes) (n : ℕ) (p : Parsed)
    → parse_incremental ctx part ≡ some p
    → p.consumed ≤ n
    → Room m ctx n
    → p.ok ≡ true
    → get_complete_request p.ctx ≡ true
    → n - p.consumed < m
consumed-small m ctx part n p e fits (inr small) ok full = omega arith
consumed-small m ctx part n p e fits (inl (going, waiting, small)) ok full =
    elim (Bool-cases (p.consumed == 0)) [
      | inl none_taken ↦ ground (
        arith,
        waiting,
        full,
        none_taken,
        ap get_complete_request (
            parse_incremental_idle (next_line part ctx) ctx part p refl going e
              (ground (arith, none_taken)) ok),
      )
      | inr some_taken ↦ ground (arith, some_taken)
    ]

-- What the parser leaves.
parse_more-IsLeft :
    (m : ℕ) (s : HttpServer) (ctx : HttpContext) (c : Connection)
    → IsQuiet s.response_callback
    → IsValid c.read_buffer
    → is_requested c ≡ get_complete_request ctx
    → Room m ctx (readable_bytes c.read_buffer)
    → OnSome (IsLeft m) (parse_more s ctx c)
unfolding parse_more
parse_more-IsLeft m s ctx c quiet valid same room =
    at (not ctx.headers_complete || not ctx.body_complete) refl
  where
    parsing :
        OnSome
          (IsLeft m)
          (parse_incremental ctx (peek_all_as_string c.read_buffer) >>= λ p. accept s p c)
    parsing =
        let (p, e, within) = parse_incremental_total ctx (peek_all_as_string c.read_buffer) in
        let fits : p.consumed ≤ readable_bytes c.read_buffer =
          omega (arith, within, length-contents valid) in
        subst (OnSome (IsLeft m)) (sym (ap (λ o. o >>= λ p. accept s p c) e)) (
          accept-IsLeft m s p c quiet valid fits (
            consumed-small m ctx (peek_all_as_string c.read_buffer) (readable_bytes c.read_buffer) p
              e fits room))

    at :
        (b : Bool)
        → (not ctx.headers_complete || not ctx.body_complete) ≡ b
        → OnSome (IsLeft m) (
            if b
            then (parse_incremental ctx (peek_all_as_string c.read_buffer) >>= λ p. accept s p c)
            else some (goes_on c))
    at true e = parsing
    at false e = (valid, λ k. whole m ctx (readable_bytes c.read_buffer) e room)

requested-context : (c : Connection) → is_requested c ≡ get_complete_request (context_of c)
requested-context c = at c.context
  where
    at :
        (o : Option HttpContext)
        → (elim o [ none ↦ false | some ctx ↦ get_complete_request ctx ])
          ≡ get_complete_request (elim o [ none ↦ Context.create | some ctx ↦ ctx ])
    at none = refl
    at (some ctx) = refl

-- The loop, when the header has still to come and the fuel is above the length of the buffer.
message_loop-Ends :
    (fuel : ℕ) (s : HttpServer) (files : ℤ → Bytes)
    → IsQuiet s.response_callback
    → AnswersTexts s.response_callback
    → EndsBelow fuel (message_loop fuel s files)
unfolding message_loop
message_loop-Ends zero s files quiet texts c valid fresh small = absurd (omega arith)
message_loop-Ends (suc fuel) s files quiet texts c valid fresh small =
    stage-Ends fuel s files (message_loop fuel s files) (parse_more s (context_of c) c) quiet texts
      (message_loop-Ends fuel s files quiet texts)
      (parse_more-IsLeft fuel s (context_of c) c quiet valid (requested-context c)
        (inl (fresh.0, fresh.1, small)))

-- The first round, in whatever state the context is.
first_round-Ends :
    (s : HttpServer) (files : ℤ → Bytes) (c : Connection)
    → IsQuiet s.response_callback
    → AnswersTexts s.response_callback
    → IsValid c.read_buffer
    → Ends (message_loop (suc (readable_bytes c.read_buffer + 1)) s files c)
unfolding message_loop
first_round-Ends s files c quiet texts valid =
    let m = readable_bytes c.read_buffer + 1 in
    stage-Ends m s files (message_loop m s files) (parse_more s (context_of c) c) quiet texts
      (message_loop-Ends m s files quiet texts)
      (parse_more-IsLeft m s (context_of c) c quiet valid (requested-context c) (inr (omega arith)))

Ends-not : (o : Outcome) → Ends o → (o ≢ out_of_fuel) × (o ≢ unending)
Ends-not (finished d) h = (λ e. subst Ends e h, λ e. subst Ends e h)
Ends-not aborted h = (λ e. subst Ends e h, λ e. subst Ends e h)
Ends-not unending h = absurd h
Ends-not out_of_fuel h = absurd h

-- `onMessage` comes to an end, whatever the buffer holds, if the callback answers with texts, leaves
-- the read buffer alone and does not mark a request as complete or incomplete: its loop ends, and it
-- is in no loop of `SendFile`.
pub on_message_total :
    (s : HttpServer) (files : ℤ → Bytes) (c : Connection)
    → IsQuiet s.response_callback
    → AnswersTexts s.response_callback
    → IsValid c.read_buffer
    → (on_message s files c ≢ out_of_fuel) × (on_message s files c ≢ unending)
unfolding on_message
on_message_total s files c quiet texts valid =
    let opened = record c { context = some (context_of c) } in
    let rounds : suc (readable_bytes c.read_buffer + 1) ≡ readable_bytes c.read_buffer + 2 =
      omega arith in
    Ends-not _ (
      if-Ends (is_connected c.state) _ _
        (subst (λ k. Ends (message_loop k s files opened)) rounds
          (first_round-Ends s files opened quiet texts valid))
        tt)
