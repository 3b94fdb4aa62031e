-- ===== src/Http/Response/Tests.antt =====
-- Runs of a response, and its theorem at a concrete input.
use c_cloud_storage.Prelude.{
  ◌≡◌, ◌+◌, ◌^◌, ◌<◌, refl, false, some, ◌++◌, bytes, eqb, arith, length, [],
}
use c_cloud_storage.Prelude.Dict.{insert}
use c_cloud_storage.Prelude.Number.{pos, decimal, decimal_onto, decimal_ℤ}
use c_cloud_storage.Tcp.Buffer
use c_cloud_storage.Tcp.Buffer.{Buffer, create, peek_all_as_string}
use c_cloud_storage.Tcp.Buffer.Bounds.{IsValid}
use c_cloud_storage.Tcp.Buffer.Queue.{create-IsValid}
use c_cloud_storage.Http.Response.{
  HttpResponse, head_text, ranged, append_to_buffer, set_content_range, make_simple,
  set_content_type, add_header,
}
use c_cloud_storage.Http.Response.Written.{message_head, append_to_buffer_lem}

abbrev part : HttpResponse
part = (set_content_range (pos 2) (pos 5) (pos 10) (make_simple false 200 [] (bytes "cdef"))).0

head :
    head_text (ranged part)
    ≡ bytes
        "HTTP/1.1 206 Partial Content\r\nConnection: Keep-Alive\r\nContent-Range: bytes 2-5/10\r\nContent-Length: 4\r\nContent-Type: text/plain; charset=utf-8\r\n\r\n"
unfolding set_content_range make_simple set_content_type add_header insert decimal decimal_onto
    decimal_ℤ eqb
head = refl

room :
    length Buffer.create.buf + (length (message_head (some (2, 3)) part) + length part.body)
    < 2 ^ 64
unfolding create set_content_range make_simple set_content_type add_header insert decimal
    decimal_onto decimal_ℤ eqb
room = omega arith

append_to_buffer_lem_example :
    (c : Buffer) × (append_to_buffer part Buffer.create
      ≡ some (record part { status_code = 206 }, c))
    × IsValid c
    × (peek_all_as_string c
        ≡ peek_all_as_string Buffer.create ++ (message_head (some (2, 3)) part ++ part.body))
unfolding set_content_range make_simple set_content_type add_header
append_to_buffer_lem_example =
    append_to_buffer_lem (some (2, 3)) part {out = Buffer.create} (refl, refl, refl) create-IsValid
      room
