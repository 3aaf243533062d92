-- ===== src/Tests/BufferedTests.antt =====
-- vsockBufferedConn of sandbox/agentclient.go on a response that comes with the reply to CONNECT.
use emberbox.Prelude.{List, [], ◌∷◌, ◌≡◌, refl, some, none, text, ◌++◌, arith, Text}
use emberbox.Sandbox.AgentClient.Buffered.{
  read_string, new_reader, reads, buffered_read, cut_line, collect,
}
use emberbox.Sandbox.AgentClient.Buffered.Laws.{Delivers, read_string-Delivers}

-- "OK 1024\n{}" in two packets, the second with the end of the line and the response.
abbrev packets : List Text
packets = text "OK 10" ∷ (text "24" ++ (b'\n' ∷ text "{}")) ∷ []

reply_read :
    read_string (new_reader packets)
    ≡ some (text "OK 1024" ++ (b'\n' ∷ []), record { ahead = text "{}"; socket = [] })
unfolding read_string cut_line text collect
reply_read = refl

-- The response is read from what is ahead: the socket has nothing left.
response_read : (reads (1 ∷ 512 ∷ []) (record { ahead = text "{}"; socket = [] })).0 ≡ text "{}"
unfolding reads buffered_read text
response_read = refl

cut_off : read_string (new_reader (text "OK 10" ∷ [])) ≡ none
unfolding read_string cut_line text collect
cut_off = refl

read_string-Delivers_example : Delivers packets (1 ∷ 512 ∷ [])
unfolding text
read_string-Delivers_example =
    read_string-Delivers packets (1 ∷ 512 ∷ []) (omega arith, (omega arith, tt))
      (omega arith, (omega arith, tt))
