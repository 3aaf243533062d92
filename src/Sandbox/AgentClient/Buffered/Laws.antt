-- ===== src/Sandbox/AgentClient/Buffered/Laws.antt =====
-- What vsockBufferedConn of sandbox/agentclient.go delivers of the bytes of a socket.
use Prim.Native.Nat.{min}
use emberbox.Prelude.{
  length, All, ◌≤◌, ◌<◌, length-append, ℕ, zero, suc, Text, Option, none, some, List, [], ◌∷◌, ◌++◌,
  ◌≡◌, ◌⊎◌, refl, sym, ap, ◌∙◌, inl, inr, take, drop, Option-cases, append_assoc, append-nil, arith,
  Bool-cases, ◌==◌,
}
use emberbox.Sandbox.AgentClient.Buffered.{
  VsockBufferedConn, new_reader, cut_line, collect, read_string, read_from, buffered_read, reads,
  in_front,
}

unfoldable pub concat : List Text → Text
concat [] = []
concat (c ∷ cs) = c ++ concat cs

-- The bytes still to come of a connection.
unfoldable pub pending : VsockBufferedConn → Text
pending b = b.ahead ++ concat b.socket

-- No read of the socket returns nothing before the end of the stream.
abbrev pub Filled : List Text → Type 0
Filled socket = All (λ c. 0 < length c) socket

take-append-drop : (n : ℕ) (s : Text) → take n s ++ drop n s ≡ s
take-append-drop zero s = refl
take-append-drop (suc n) [] = refl
take-append-drop (suc n) (a ∷ s) = ap (◌∷◌ a) (take-append-drop n s)

read_from-pending :
    (n : ℕ) (ahead : Text) (socket : List Text)
    → let (s, b) = read_from n ahead socket in s ++ pending b ≡ ahead ++ concat socket
unfolding read_from pending concat
read_from-pending n [] [] = refl
read_from-pending n [] (c ∷ cs) =
    sym (append_assoc (take n c) (drop n c) (concat cs))
    ∙ ap (λ x. x ++ concat cs) (take-append-drop n c)
read_from-pending n (a ∷ s) socket =
    sym (append_assoc (take n (a ∷ s)) (drop n (a ∷ s)) (concat socket))
    ∙ ap (λ x. x ++ concat socket) (take-append-drop n (a ∷ s))

-- Reads of any lengths get the bytes to come, in order.
reads-pending :
    (ns : List ℕ) (b : VsockBufferedConn) → let (s, b') = reads ns b in s ++ pending b' ≡ pending b
unfolding reads buffered_read pending
reads-pending [] b = refl
reads-pending (n ∷ ns) b =
    let (s, b') = buffered_read b n in
    let (t, b'') = reads ns b' in
    append_assoc s t (pending b'')
    ∙ (ap (λ x. s ++ x) (reads-pending ns b') ∙ read_from-pending n b.ahead b.socket)

-- A read for some bytes returns some, if any are to come.
read_from-some :
    (n : ℕ) (ahead : Text) (socket : List Text)
    → 0 < n
    → Filled socket
    → (length (ahead ++ concat socket) ≡ 0) ⊎ (0 < length (read_from n ahead socket).0)
unfolding read_from concat
read_from-some zero ahead socket some_asked filled = absurd (omega arith)
read_from-some (suc n) [] [] some_asked filled = inl refl
read_from-some (suc n) [] ([] ∷ cs) some_asked (one, filled) = absurd (omega (arith, one))
read_from-some (suc n) [] ((x ∷ c) ∷ cs) some_asked filled = inr (omega arith)
read_from-some (suc n) (a ∷ s) socket some_asked filled = inr (omega arith)

read_from-Filled :
    (n : ℕ) (ahead : Text) (socket : List Text)
    → Filled socket
    → Filled (read_from n ahead socket).1.socket
unfolding read_from
read_from-Filled n [] [] filled = tt
read_from-Filled n [] (c ∷ cs) (one, filled) = filled
read_from-Filled n (a ∷ s) socket filled = filled

-- Each read gets a byte, until none is left.
reads-progress :
    (ns : List ℕ) (b : VsockBufferedConn)
    → All (λ n. 0 < n) ns
    → Filled b.socket
    → min (length ns) (length (pending b)) ≤ length (reads ns b).0
unfolding reads buffered_read pending
reads-progress [] b asked filled = omega arith
reads-progress (n ∷ ns) b (some_asked, asked) filled =
    let (s, b') = buffered_read b n in
    let (t, b'') = reads ns b' in
    let rest = reads-progress ns b' asked (read_from-Filled n b.ahead b.socket filled) in
    let sizes = ap length (read_from-pending n b.ahead b.socket) in
    omega (
      arith,
      rest,
      sizes,
      length-append s t,
      length-append s (pending b'),
      read_from-some n b.ahead b.socket some_asked filled,
    )

abbrev MakesUp : Text → Option (Text × Text) → Type 0
MakesUp s none = Unit
MakesUp s (some (line, rest)) = line ++ rest ≡ s

in_front-MakesUp :
    (a : ℕ) (s : Text) (o : Option (Text × Text)) → MakesUp s o → MakesUp (a ∷ s) (in_front a o)
in_front-MakesUp a s none whole = tt
in_front-MakesUp a s (some (line, rest)) whole = ap (λ x. a ∷ x) whole

-- The line and the rest are the text.
cut_line-MakesUp : (s : Text) → MakesUp s (cut_line s)
unfolding cut_line
cut_line-MakesUp [] = tt
cut_line-MakesUp (a ∷ s) = elim (Bool-cases (a == b'\n')) [
  | inl end ↦ let same : b'\n' ≡ a = ground (arith, end) in rw end (ap (λ x. x ∷ s) same)
  | inr more ↦ rw more (in_front-MakesUp a s (cut_line s) (cut_line-MakesUp s))
]

-- Behind a text without a newline.
abbrev behind : Text → Option (Text × Text) → Option (Text × Text)
behind s none = none
behind s (some (line, rest)) = some (s ++ line, rest)

-- The first newline of two texts.
abbrev joined : Text → Text → Option (Text × Text) → Option (Text × Text)
joined s t none = behind s (cut_line t)
joined s t (some (line, rest)) = some (line, rest ++ t)

in_front-joined :
    (a : ℕ) (s t : Text) (o : Option (Text × Text))
    → in_front a (joined s t o) ≡ joined (a ∷ s) t (in_front a o)
in_front-joined a s t (some (line, rest)) = refl
in_front-joined a s t none = elim (Option-cases (cut_line t)) [
  | inl missing ↦ rw missing refl
  | inr ((l, r), found) ↦ rw found refl
]

cut_line-append : (s t : Text) → cut_line (s ++ t) ≡ joined s t (cut_line s)
unfolding cut_line
cut_line-append [] t = elim (Option-cases (cut_line t)) [
  | inl missing ↦ rw missing refl
  | inr ((l, r), found) ↦ rw found refl
]
cut_line-append (a ∷ s) t = elim (Bool-cases (a == b'\n')) [
  | inl end ↦ rw end refl
  | inr more ↦ rw more (ap (in_front a) (cut_line-append s t) ∙ in_front-joined a s t (cut_line s))
]

-- What ReadString returns, by the first newline of all that comes.
abbrev Gets : Text → Option (Text × Text) → Option (Text × VsockBufferedConn) → Type 0
Gets before none r = r ≡ none
Gets before (some (line, rest)) r =
    (b : VsockBufferedConn) × (r ≡ some (before ++ line, b)) × (pending b ≡ rest) × Filled b.socket

Gets-behind :
    (before ahead : Text) (o : Option (Text × Text)) (r : Option (Text × VsockBufferedConn))
    → Gets (before ++ ahead) o r
    → Gets before (behind ahead o) r
Gets-behind before ahead none r gets = gets
Gets-behind before ahead (some (line, rest)) r (b, same, left, filled) =
    (b, same ∙ ap (λ x. some (x, b)) (append_assoc before ahead line), left, filled)

collect-Gets :
    (before ahead : Text) (socket : List Text)
    → Filled socket
    → Gets before (cut_line (ahead ++ concat socket)) (collect before ahead socket)
unfolding concat collect pending
collect-Gets before ahead [] filled = elim (Option-cases (cut_line ahead)) [
  | inl missing ↦ rw (append-nil ahead, missing, collect) refl
  | inr ((line, rest), found) ↦ rw (append-nil ahead, found, collect) (_, refl, append-nil rest, tt)
]
collect-Gets before ahead (c ∷ cs) (one, filled) = elim (Option-cases (cut_line ahead)) [
  | inl missing ↦
      rw (cut_line-append ahead (c ++ concat cs), missing, collect)
        (Gets-behind before ahead (cut_line (c ++ concat cs)) (collect (before ++ ahead) c cs)
          (collect-Gets (before ++ ahead) c cs filled))
  | inr ((line, rest), found) ↦
      rw (cut_line-append ahead (c ++ concat cs), found, collect) (_, refl, refl, (one, filled))
]

-- What read_string and the reads behind it do on a socket: there is no newline and ReadString fails,
-- or it returns the first line, and the reads get the bytes behind it from the first on.
abbrev pub Delivers : List Text → List ℕ → Type 0
Delivers socket ns =
    ((cut_line (concat socket) ≡ none) × (read_string (new_reader socket) ≡ none))
    ⊎ ((line : Text) × (rest : Text) × (b : VsockBufferedConn) × (line ++ rest ≡ concat socket)
        × (cut_line (concat socket) ≡ some (line, rest))
        × (read_string (new_reader socket) ≡ some (line, b))
        × ((reads ns b).0 ++ pending (reads ns b).1 ≡ rest)
        × (min (length ns) (length rest) ≤ length (reads ns b).0))

delivered :
    (socket : List Text) (ns : List ℕ) (o : Option (Text × Text))
    → All (λ n. 0 < n) ns
    → cut_line (concat socket) ≡ o
    → MakesUp (concat socket) o
    → Gets [] o (read_string (new_reader socket))
    → Delivers socket ns
delivered socket ns none asked e whole gets = inl (e, gets)
delivered socket ns (some (line, rest)) asked e whole (b, same, left, filled) = inr (
  line,
  rest,
  b,
  whole,
  e,
  same,
  reads-pending ns b ∙ left,
  omega (arith, reads-progress ns b asked filled, ap length left),
)

-- However the bytes of the socket are cut into reads that are not empty, and whatever lengths the
-- decoder asks for: the reply to CONNECT is all that comes through the first newline, or an error if
-- none comes. Of the bytes behind it, also of those that were read off the socket with the reply,
-- the connection that is handed on delivers the first ones, in order, and with each read at least
-- one more until all are delivered.
pub read_string-Delivers :
    (socket : List Text) (ns : List ℕ) → Filled socket → All (λ n. 0 < n) ns → Delivers socket ns
unfolding read_string
read_string-Delivers socket ns filled asked =
    delivered socket ns (cut_line (concat socket)) asked refl (cut_line-MakesUp (concat socket))
      (collect-Gets [] [] socket filled)
