-- ===== src/Nntp/Scenarios.antt =====
-- Blocks, commands and responses on the wire.
use nzbd.Prelude.{ℕ, ◌+◌, ◌≡◌, refl, true, List, [], ◌∷◌, ◌++◌, length}
use nzbd.Yenc.StdText.{from_utf8_lossy, trim}
use nzbd.Nntp.{ok, err, illegal_argument, malformed_response}
use nzbd.Nntp.Responses.{Response, parse, is_article_missing}
use nzbd.Nntp.Commands.{body, group, bytes_of, trim_start_matches, encode}
use nzbd.Nntp.Injection.{IsOneLine, IsRefusable, encode-IsOneLine}
use nzbd.Nntp.Multiline.{new_reader, take_byte, consume, push, into_lines}
use nzbd.Nntp.Reading.{non_empty, stuffed, wire, push-append, push-wire}

-- "." and "ab", of which the first is sent as "..".
abbrev two_lines : List (List ℕ)
two_lines = (b'.' ∷ []) ∷ (b'a' ∷ b'b' ∷ []) ∷ []

on_the_wire :
    wire two_lines ≡ bytes_of ".." ++ 13 ∷ 10 ∷ bytes_of "ab" ++ 13 ∷ 10 ∷ b'.' ∷ 13 ∷ 10 ∷ []
unfolding wire stuffed
on_the_wire = refl

push-wire_example :
    let r = push new_reader (wire two_lines ++ bytes_of "205") in
    (into_lines r.0 ≡ non_empty two_lines) × (r.1 ≡ length (wire two_lines)) × (r.2 ≡ true)
push-wire_example =
    push-wire two_lines (bytes_of "205") ((refl, refl, refl), ((refl, refl, refl), tt))

push-append_example :
    let first = push new_reader (b'.' ∷ 13 ∷ []) in
    let second = push first.0 (10 ∷ b'2' ∷ []) in
    push new_reader (b'.' ∷ 13 ∷ 10 ∷ b'2' ∷ []) ≡ (second.0, first.1 + second.1, second.2)
push-append_example = push-append new_reader (b'.' ∷ 13 ∷ []) (10 ∷ b'2' ∷ [])

ends_between_chunks : (push (push new_reader (b'.' ∷ 13 ∷ [])).0 (10 ∷ b'2' ∷ [])).1 ≡ 1
unfolding push consume take_byte
ends_between_chunks = refl

encode-IsOneLine_example :
    IsOneLine (IsRefusable (body (bytes_of " <a@b> "))) (encode (body (bytes_of " <a@b> ")))
encode-IsOneLine_example = encode-IsOneLine (body (bytes_of " <a@b> "))

brackets_once : encode (body (bytes_of " <a@b> ")) ≡ ok (bytes_of "BODY <a@b>" ++ 13 ∷ 10 ∷ [])
unfolding encode trim trim_start_matches
brackets_once = refl

two_commands : encode (group (bytes_of "a" ++ 13 ∷ 10 ∷ bytes_of "QUIT")) ≡ err illegal_argument
unfolding encode
two_commands = refl

abbrev no_such_article : Response
no_such_article = record { code = 430; text = bytes_of "No" }

a_miss : parse (bytes_of "430 No" ++ 13 ∷ 10 ∷ []) ≡ ok no_such_article
unfolding parse from_utf8_lossy
a_miss = refl

counts_as_missing : is_article_missing no_such_article ≡ true
unfolding is_article_missing
counts_as_missing = refl

too_short : parse (bytes_of "43" ++ 13 ∷ 10 ∷ []) ≡ err malformed_response
unfolding parse
too_short = refl
