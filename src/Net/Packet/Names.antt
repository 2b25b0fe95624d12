-- ===== src/Net/Packet/Names.antt =====
-- src/net/config/network_stack.c: `ortos_net_dns_parse_name` reads names of labels back, and never
-- gives more than the buffer takes.
use mathlib.Core.List.{append_assoc}
use project_orange_tea.Base.{
  ℕ, zero, suc, ◌+◌, ◌≤◌, ◌<◌, ◌≡◌, refl, ap, ◌∙◌, false, some, List, [], ◌∷◌, ◌++◌, ltb, leb, ◌==◌,
  ◌||◌, if-false, length, take, drop, arith, length-append, length-take, take-append, drop-append,
}
use project_orange_tea.Net.Packet.{dns_labels, dns_parse_name, dotted}

-- the wire form of a name: each label behind its length, a 0 at the end
pub encode_labels : List (List ℕ) → List ℕ
encode_labels [] = 0 ∷ []
encode_labels (label ∷ labels) = length label ∷ (label ++ encode_labels labels)

-- the text of a name: its labels with dots, character 46, between them
unfoldable pub join_labels : List (List ℕ) → List ℕ
join_labels [] = []
join_labels (label ∷ []) = label
join_labels (label ∷ next ∷ labels) = label ++ (46 ∷ join_labels (next ∷ labels))

-- what the loop has put into the buffer when it has read the labels
unfoldable read_labels : List ℕ → List (List ℕ) → List ℕ
read_labels out [] = out
read_labels out (label ∷ labels) = read_labels (dotted out label) labels

abbrev pub Labels : List (List ℕ) → Type 0
Labels [] = Unit {0}
Labels (label ∷ labels) = (0 < length label) × Labels labels

length-dotted : (out label : List ℕ) → length (dotted out label) ≤ length out + length label + 1
length-dotted [] label = omega arith
length-dotted (c ∷ out) label = omega (arith, length-append out (b'.' ∷ label))

dotted-longer : (out label : List ℕ) → length out + length label ≤ length (dotted out label)
dotted-longer [] label = omega arith
dotted-longer (c ∷ out) label = omega (arith, length-append out (b'.' ∷ label))

join-longer : (out : List ℕ) (labels : List (List ℕ)) → length out ≤ length (read_labels out labels)
unfolding read_labels
join-longer out [] = omega arith
join-longer out (label ∷ labels) =
    omega (arith, join-longer (dotted out label) labels, dotted-longer out label)

dotted_cons : (out label : List ℕ) → 0 < length out → dotted out label ≡ out ++ (46 ∷ label)
dotted_cons [] label h = absurd (omega arith)
dotted_cons (c ∷ out) label h = refl

-- behind something that is not empty, every label comes with a dot in front
read-behind :
    (out label : List ℕ) (labels : List (List ℕ))
    → Labels (label ∷ labels)
    → 0 < length out
    → read_labels out (label ∷ labels) ≡ out ++ (46 ∷ join_labels (label ∷ labels))
unfolding read_labels join_labels
read-behind out label [] (some_bytes, ok) h = dotted_cons out label h
read-behind out label (next ∷ labels) (some_bytes, ok) h =
    read-behind (dotted out label) next labels ok (omega (arith, dotted-longer out label))
    ∙ ap (λ o. o ++ (46 ∷ join_labels (next ∷ labels))) (dotted_cons out label h)
    ∙ append_assoc out (46 ∷ label) (46 ∷ join_labels (next ∷ labels))

read-join : (labels : List (List ℕ)) → Labels labels → read_labels [] labels ≡ join_labels labels
unfolding read_labels join_labels
read-join [] ok = refl
read-join (label ∷ []) ok = refl
read-join (label ∷ next ∷ labels) (some_bytes, ok) = read-behind label next labels ok some_bytes

-- The loop reads a name whose text, with a byte to spare, fits in the buffer.
dns_labels-encode :
    (rounds out_size : ℕ) (labels : List (List ℕ)) (behind out : List ℕ)
    → Labels labels
    → length labels < rounds
    → length (read_labels out labels) + 1 < out_size
    → dns_labels rounds out_size (encode_labels labels ++ behind) out
      ≡ some (read_labels out labels)
unfolding dns_labels encode_labels read_labels
dns_labels-encode zero out_size labels behind out ok few fits = absurd (omega arith)
dns_labels-encode (suc rounds) out_size [] behind out ok few fits = refl
dns_labels-encode (suc rounds) out_size (label ∷ labels) behind out (nonempty, ok) few fits =
    let rest = encode_labels labels ++ behind in
    let e : (label ++ encode_labels labels) ++ behind ≡ label ++ rest =
      append_assoc label (encode_labels labels) behind in
    let some_bytes : length label == 0 ≡ false = ground arith in
    let inside : ltb (length ((label ++ encode_labels labels) ++ behind)) (length label) ≡ false =
      rw e (ground (arith, length-append label rest)) in
    let room : leb out_size (length out + length label + 1) ≡ false =
      ground (arith, join-longer (dotted out label) labels, dotted-longer out label) in
    if-false _ _ some_bytes
    ∙ if-false _ _ inside
    ∙ if-false _ _ room
    ∙ ap
        (λ b.
          dns_labels rounds out_size (drop (length label) b) (dotted out (take (length label) b)))
        e
    ∙ rw (drop-append label rest (length label) refl, take-append label rest (length label) refl)
        (dns_labels-encode rounds out_size labels behind (dotted out label) ok (omega arith) fits)

length-encode : (labels : List (List ℕ)) → length labels < length (encode_labels labels)
unfolding encode_labels
length-encode [] = omega arith
length-encode (label ∷ labels) =
    omega (arith, length-append label (encode_labels labels), length-encode labels)

-- A name at an offset of a packet, whatever stands before and behind it, is read back as its labels
-- with dots (character 46) between them, if none of them is empty and the text fits in the buffer
-- with two bytes to spare.
pub dns_parse_name-encode :
    (before behind : List ℕ) (labels : List (List ℕ)) (out_size : ℕ)
    → Labels labels
    → length (join_labels labels) + 1 < out_size
    → dns_parse_name (before ++ (encode_labels labels ++ behind)) (length before) out_size
      ≡ some (join_labels labels)
unfolding dns_parse_name
dns_parse_name-encode before behind labels out_size ok fits =
    let name = encode_labels labels ++ behind in
    let long : length labels < length (before ++ name) = omega (
      arith,
      length-append before name,
      length-append (encode_labels labels) behind,
      length-encode labels,
    ) in
    let same = read-join labels ok in
    let usable : length (before ++ name) == 0 || out_size == 0 ≡ false = ground arith in
    if-false _ _ usable
    ∙ ap (λ rest. dns_labels (length (before ++ name)) out_size rest [])
        (drop-append before name (length before) refl)
    ∙ dns_labels-encode (length (before ++ name)) out_size labels behind [] ok long
        (omega (arith, fits, ap length same))
    ∙ ap some same

labels-bound :
    (rounds out_size : ℕ) (rest out name : List ℕ)
    → length out < out_size
    → dns_labels rounds out_size rest out ≡ some name
    → length name < out_size
unfolding dns_labels
labels-bound zero out_size rest out name h e = cc
labels-bound (suc rounds) out_size [] out name h e = cc
labels-bound (suc rounds) out_size (n ∷ rest) out name h e = ground (
  arith,
  labels-bound rounds out_size (drop n rest) (dotted out (take n rest)) name,
  length-dotted out (take n rest),
  length-take n rest,
)

-- Whatever the packet and the offset are, a name that is given fits in the buffer with its NUL.
pub dns_parse_name-bound :
    (packet : List ℕ) (offset out_size : ℕ) (name : List ℕ)
    → dns_parse_name packet offset out_size ≡ some name
    → length name < out_size
unfolding dns_parse_name
dns_parse_name-bound packet offset out_size name e =
    ground (arith, labels-bound (length packet) out_size (drop offset packet) [] name)
