-- ===== src/Http/Server/Deferred.antt =====
-- A response that a callback leaves for later.
use c_cloud_storage.Prelude.{
  suc, ◌+◌, ◌≡◌, refl, ap, ◌∙◌, true, false, not, ◌||◌, none, some, ◌==◌, if_then, Bytes, arith,
}
use c_cloud_storage.Prelude.Number.{ℤ}
use c_cloud_storage.Tcp.Buffer.{Buffer, ◌>>=◌, readable_bytes, peek_all_as_string}
use c_cloud_storage.Tcp.Buffer.Bounds.{IsValid}
use c_cloud_storage.Tcp.Connection.{Connection, is_connected}
use c_cloud_storage.Http.Response.{HttpResponse, create}
use c_cloud_storage.Http.Context
use c_cloud_storage.Http.Context.{
  HttpContext, Parsed, reset_context_status, get_complete_request, store_deferred_response,
}
use c_cloud_storage.Http.Context.Incremental.{parse_incremental}
use c_cloud_storage.Http.Server.{
  HttpServer, HttpResponseCallback, on_request, wants_close, respond, deferred,
  send_deferred_response,
}
use c_cloud_storage.Http.Server.Message.{
  goes_on, Outcome, finished, accept, parsed_conn, parse_more, is_upload_part, offer_part, serve,
  answers_file, request_of, after_request, after_stage, message_loop, on_message,
}
use c_cloud_storage.Http.Server.Progress.{take_consumed_lem}

-- The callback answers later, and leaves the connection alone until then.
abbrev pub Defers : HttpResponseCallback → Type 0
Defers cb =
    (c : Connection) (r : HttpResponse)
    → (later : HttpResponse) × (cb c r ≡ some (record { conn = c; response = later; done = false }))

complete_part : (ctx : HttpContext) → ctx.body_complete ≡ true → is_upload_part ctx ≡ false
unfolding is_upload_part
complete_part ctx h = ground (arith, h)

-- The parser took all that the buffer holds, and the request is complete.
pub record IsWhole (ctx : HttpContext) (c : Connection) (p : Parsed) : Type 0 where
  pub parsed : parse_incremental ctx (peek_all_as_string c.read_buffer) ≡ some p
  pub accepted : p.ok ≡ true
  pub requested : get_complete_request p.ctx ≡ true
  pub body_complete : p.ctx.body_complete ≡ true
  pub all_taken : p.consumed ≡ readable_bytes c.read_buffer

whole_stage :
    (s : HttpServer) (ctx : HttpContext) (c : Connection) (p : Parsed)
    → ctx.headers_complete ≡ false
    → IsValid c.read_buffer
    → IsWhole ctx c p
    → (b : Buffer) × (parse_more s ctx c ≡ some (goes_on (parsed_conn p.ctx b c)))
      × (readable_bytes b ≡ 0)
unfolding parse_more
whole_stage s ctx c p going valid w =
    let (b, e, v, left) =
      take_consumed_lem p.consumed c.read_buffer valid (omega (arith, w.all_taken)) in
    (
      b,
      if_then _ _ (ap (λ h. not h || not ctx.body_complete) going)
          ∙ ap (λ o. o >>= λ q. accept s q c) w.parsed
          ∙ if_then _ _ w.accepted
          ∙ ap (λ o. o >>= λ b. offer_part s (is_upload_part p.ctx) (parsed_conn p.ctx b c)) e
          ∙ ap (λ k. offer_part s k (parsed_conn p.ctx b c)) (complete_part p.ctx w.body_complete),
      omega (arith, left, w.all_taken),
    )

-- A request whose callback answers later leaves everything but the context as it is.
deferred_request :
    (s : HttpServer) (files : ℤ → Bytes) (ctx : HttpContext) (b : Buffer) (c : Connection)
    → Defers s.response_callback
    → (r : HttpResponse) × (on_request s files ctx.request (parsed_conn ctx b c)
        ≡ some (parsed_conn (store_deferred_response r ctx) b c))
unfolding on_request
deferred_request s files ctx b c later =
    let (r, e) = later (parsed_conn ctx b c) (create (wants_close ctx.request)) in
    (r, ap (λ o. o >>= respond files) e)

none_kept :
    (files : ℤ → Bytes) (c : Connection)
    → deferred c ≡ none
    → send_deferred_response files c ≡ some c
unfolding send_deferred_response
none_kept files c h = ground (arith, h)

abbrev left_over : HttpContext → Buffer → Connection → Connection
left_over ctx b c = parsed_conn (reset_context_status ctx) b c

served_request :
    (s : HttpServer) (files : ℤ → Bytes) (again : Connection → Outcome) (ctx : HttpContext)
    (b : Buffer) (c : Connection)
    → Defers s.response_callback
    → is_connected c.state ≡ true
    → get_complete_request ctx ≡ true
    → readable_bytes b ≡ 0
    → (r : HttpResponse) × (serve s files again (parsed_conn ctx b c)
        ≡ finished (left_over (store_deferred_response r ctx) b c))
served_request s files again ctx b c later up full empty =
    let (r, e) = deferred_request s files ctx b c later in
    (
      r,
      if_then _ _ full
          ∙ ap
              (after_request
                (answers_file s (request_of (parsed_conn ctx b c)) (parsed_conn ctx b c)) again)
              e
          ∙ if_then _ _ up
          ∙ if_then _ _ (ap (λ n. n == 0) empty),
    )

-- A response that comes later never comes. The buffer holds one whole request, and the callback
-- leaves its answer for later: `onMessage` ends with nothing written to the socket or to the send
-- buffer, and it has reset the context, so that the call of `SendDeferredResponse` that the
-- callback makes when the answer is there finds none and leaves the connection as it is.
pub on_message_deferred :
    (s : HttpServer) (files : ℤ → Bytes) (ctx : HttpContext) (c : Connection) (p : Parsed)
    → Defers s.response_callback
    → c.context ≡ some ctx
    → is_connected c.state ≡ true
    → ctx.headers_complete ≡ false
    → IsValid c.read_buffer
    → IsWhole ctx c p
    → (d : Connection) × (on_message s files c ≡ finished d)
      × (d.stream ≡ c.stream)
      × (d.send_buffer ≡ c.send_buffer)
      × (send_deferred_response files d ≡ some d)
unfolding on_message message_loop reset_context_status
on_message_deferred s files ctx c p later same up going valid w =
    let c0 = record c { context = some ctx } in
    let w0 : IsWhole ctx c0 p = record {
      parsed = w.parsed;
      accepted = w.accepted;
      requested = w.requested;
      body_complete = w.body_complete;
      all_taken = w.all_taken;
    } in
    let (b, e, empty) = whole_stage s ctx c0 p going valid w0 in
    let again : Connection → Outcome = message_loop (readable_bytes c.read_buffer + 1) s files in
    let (r, f) = served_request s files again p.ctx b c0 later up w.requested empty in
    let d = left_over (store_deferred_response r p.ctx) b c in
    (
      d,
      if_then _ _ up
          ∙ ap
              (λ o.
                message_loop (readable_bytes c.read_buffer + 2) s files
                  (record c { context = some (elim o [ none ↦ Context.create | some x ↦ x ]) }))
              same
          ∙ ap (λ k. message_loop k s files c0)
              (let rounds : readable_bytes c.read_buffer + 2
                    ≡ suc (readable_bytes c.read_buffer + 1) =
                  omega arith in
                rounds)
          ∙ ap (after_stage s files again) e
          ∙ f,
      refl,
      refl,
      none_kept files d refl,
    )
