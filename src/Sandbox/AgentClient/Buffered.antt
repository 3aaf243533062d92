-- ===== src/Sandbox/AgentClient/Buffered.antt =====
-- vsockBufferedConn of sandbox/agentclient.go: the connection behind a bufio.Reader, which may take
-- bytes of the response off the socket with the reply to CONNECT. A socket is the list of what its
-- reads return, each at most what it was asked for, and then the end of the stream.
pub mod Laws
use emberbox.Prelude.{
  ℕ, Text, Option, none, some, List, [], ◌∷◌, ◌++◌, ◌==◌, if◌then◌else◌, take, drop,
}

-- The connection and its reader: what was read ahead, and what the socket still has.
pub record VsockBufferedConn : Type 0 where
  pub ahead : Text
  pub socket : List Text

-- bufio.NewReader.
abbrev pub new_reader : List Text → VsockBufferedConn
new_reader socket = record { ahead = []; socket = socket }

-- A first part of a text through its first newline.
abbrev pub in_front : ℕ → Option (Text × Text) → Option (Text × Text)
in_front a none = none
in_front a (some (line, rest)) = some (a ∷ line, rest)

unfoldable pub cut_line : Text → Option (Text × Text)
cut_line [] = none
cut_line (a ∷ s) = if a == b'\n' then some (b'\n' ∷ [], s) else in_front a (cut_line s)

-- ReadString('\n') with what it has collected; `none` is its error at the end of the stream.
unfoldable pub collect : Text → Text → List Text → Option (Text × VsockBufferedConn)
collect before ahead [] = elim (cut_line ahead) [
  | none ↦ none
  | some (line, rest) ↦ some (before ++ line, record { ahead = rest; socket = [] })
]
collect before ahead (c ∷ cs) = elim (cut_line ahead) [
  | none ↦ collect (before ++ ahead) c cs
  | some (line, rest) ↦ some (before ++ line, record { ahead = rest; socket = c ∷ cs })
]

-- reader.ReadString('\n').
unfoldable pub read_string : VsockBufferedConn → Option (Text × VsockBufferedConn)
unfolding collect
read_string b = collect [] b.ahead b.socket

-- bufio.Reader.Read with a slice of length n: what was read ahead, and one read of the socket only
-- if that is nothing.
unfoldable pub read_from : ℕ → Text → List Text → Text × VsockBufferedConn
read_from n [] [] = ([], record { ahead = []; socket = [] })
read_from n [] (c ∷ cs) = (take n c, record { ahead = drop n c; socket = cs })
read_from n (a ∷ s) socket = (take n (a ∷ s), record { ahead = drop n (a ∷ s); socket = socket })

-- vsockBufferedConn.Read.
unfoldable pub buffered_read : VsockBufferedConn → ℕ → Text × VsockBufferedConn
unfolding read_from
buffered_read b n = read_from n b.ahead b.socket

-- What the decoder gets in reads of these lengths.
unfoldable pub reads : List ℕ → VsockBufferedConn → Text × VsockBufferedConn
unfolding buffered_read
reads [] b = ([], b)
reads (n ∷ ns) b = let (s, b') = buffered_read b n in let (t, b'') = reads ns b' in (s ++ t, b'')
