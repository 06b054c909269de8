-- ===== src/Message/Laws.antt =====
-- On GetMachMsgStruct of fuzz/handlers/mach_message.cc.
use sock_fuzzer.Common.{
  ℕ, suc, Bool, true, false, List, [], ◌∷◌, ◌++◌, length, replicate, ok, ◌≡◌, refl, sym, ap, ◌∙◌,
  ◌+◌, ◌^◌, ◌%◌, arith, if◌then◌else◌, length-append, append_assoc, append-nil, ◌==◌, Bool-cases,
  inl, inr,
}
use sock_fuzzer.Message.{
  Layout, copy_at, overwrite, total_size, copy_descriptors, is_empty, Parts, message_size,
  message_header, get_mach_msg_struct, start_message, end_message,
}

overwrite-replicate :
    (source : List ℕ) (room : ℕ)
    → overwrite source (replicate (length source + room) 0) ≡ source ++ replicate room 0
overwrite-replicate [] room = let same : 0 + room ≡ room = omega arith in rw same refl
overwrite-replicate (x ∷ source) room =
    let same : suc (length source) + room ≡ suc (length source + room) = omega arith in
    rw same (ap (◌∷◌ x) (overwrite-replicate source room))

-- Copying to the end of what has been written leaves the rest of the buffer for the next copy.
copy_at-replicate :
    (done source : List ℕ) (room : ℕ)
    → copy_at (length done) source (done ++ replicate (length source + room) 0)
      ≡ (done ++ source) ++ replicate room 0
copy_at-replicate [] source room = overwrite-replicate source room
copy_at-replicate (x ∷ done) source room = ap (◌∷◌ x) (copy_at-replicate done source room)

abbrev pub concat : List (List ℕ) → List ℕ
concat [] = []
concat (xs ∷ xss) = xs ++ concat xss

length-concat : (xss : List (List ℕ)) → length (concat xss) ≡ total_size xss
length-concat [] = refl
length-concat (xs ∷ xss) = omega (arith, length-append xs (concat xss), length-concat xss)

copy_descriptors-replicate :
    (descriptors : List (List ℕ)) (done : List ℕ) (room : ℕ)
    → copy_descriptors descriptors
        (length done)
        (done ++ replicate (total_size descriptors + room) 0)
      ≡ ((done ++ concat descriptors) ++ replicate room 0, length done + total_size descriptors)
unfolding copy_descriptors
copy_descriptors-replicate [] done room =
    let same : 0 + room ≡ room = omega arith in
    let end : length done + 0 ≡ length done = omega arith in simp (same, end, append-nil) refl
copy_descriptors-replicate (descriptor ∷ descriptors) done room =
    let here : ℕ = length descriptor in
    let later : ℕ = total_size descriptors in
    let fits : here + later + room ≡ here + (later + room) = omega arith in
    let far : length (done ++ descriptor) ≡ length done + here = length-append done descriptor in
    let sums : length done + here + later ≡ length done + (here + later) = omega arith in
    let ih = copy_descriptors-replicate descriptors (done ++ descriptor) room in
    let joined = append_assoc done descriptor (concat descriptors) in
    rw (fits, copy_at-replicate done descriptor (later + room)) (simp (far, sums, joined) at ih)

put :
    (done source : List ℕ) (at_byte room total : ℕ)
    → at_byte ≡ length done
    → total ≡ length source + room
    → copy_at at_byte source (done ++ replicate total 0) ≡ (done ++ source) ++ replicate room 0
put done source at_byte room total e f = rw (e, f) (copy_at-replicate done source room)

end_message-put :
    (layout : Layout) (done inline_data : List ℕ) (size : ℕ)
    → size ≡ length done + length inline_data
    → end_message layout size inline_data (done ++ replicate (length inline_data) 0, length done)
      ≡ ok (done ++ inline_data)
end_message-put layout done inline_data size e =
    let fits : (length done + length inline_data == size) ≡ true = ground arith in
    let room : length inline_data ≡ length inline_data + 0 = omega arith in
    simp fits (
      ap ok (
        put done inline_data (length done) 0 (length inline_data) refl room
        ∙ append-nil (done ++ inline_data)))

total_size-empty : (xss : List (List ℕ)) → is_empty xss ≡ true → total_size xss ≡ 0
total_size-empty [] e = refl
total_size-empty (xs ∷ xss) e = cc

concat-empty : (xss : List (List ℕ)) → is_empty xss ≡ true → concat xss ≡ []
concat-empty [] e = refl
concat-empty (xs ∷ xss) e = cc

-- The parts of a message, one after the other.
abbrev pub assembled : Layout → Parts → List ℕ
assembled layout p =
    layout.header_bytes (message_header layout p)
    ++ ((if is_empty p.descriptors
          then []
          else layout.body_bytes (length p.descriptors % 2 ^ 32) ++ concat p.descriptors)
        ++ p.inline_data)

abbrev pub counted : Layout → Parts → List ℕ
counted layout p =
    layout.header_bytes (message_header layout p)
    ++ (if is_empty p.descriptors then [] else layout.body_bytes (length p.descriptors % 2 ^ 32))

start-counted :
    (hs bs : List ℕ) (none_there : Bool) (h b total room : ℕ)
    → h ≡ length hs
    → b ≡ length bs
    → total ≡ h + (if none_there then 0 else b) + room
    → let headed = copy_at 0 hs (replicate total 0) in
      let front = hs ++ (if none_there then [] else bs) in
      let started : List ℕ × ℕ = if none_there then (headed, h) else (copy_at h bs headed, h + b) in
      started ≡ (front ++ replicate room 0, length front)
start-counted hs bs true h b total room e f g =
    let front = put [] hs 0 room total refl (omega (arith, e, g)) in
    simp (front, e, append-nil) refl
start-counted hs bs false h b total room e f g =
    let front = put [] hs 0 (b + room) total refl (omega (arith, e, g)) in
    let both = put hs bs h room (b + room) e (omega (arith, f)) in
    let sum : h + b ≡ length (hs ++ bs) = omega (arith, e, f, length-append hs bs) in
    simp (front, both, sum) refl

start_message-counted :
    (layout : Layout) (p : Parts)
    → start_message layout p ≡ (
      counted layout p ++ replicate (total_size p.descriptors + length p.inline_data) 0,
      length (counted layout p),
    )
start_message-counted layout p =
    let h = layout.header_bytes_lem (message_header layout p) in
    let b = layout.body_bytes_lem (length p.descriptors % 2 ^ 32) in
    start-counted (layout.header_bytes (message_header layout p))
      (layout.body_bytes (length p.descriptors % 2 ^ 32)) (is_empty p.descriptors)
      layout.header_size layout.body_size (message_size layout p)
      (total_size p.descriptors + length p.inline_data) (sym h) (sym b)
      (ground (arith, total_size-empty p.descriptors))

length-front :
    (hs bs : List ℕ) (none_there : Bool)
    → length (hs ++ (if none_there then [] else bs))
      ≡ length hs + (if none_there then 0 else length bs)
length-front hs bs true = simp append-nil (omega arith)
length-front hs bs false = length-append hs bs

length-counted :
    (layout : Layout) (p : Parts)
    → length (counted layout p)
      ≡ layout.header_size + (if is_empty p.descriptors then 0 else layout.body_size)
length-counted layout p =
    let h = layout.header_bytes_lem (message_header layout p) in
    let b = layout.body_bytes_lem (length p.descriptors % 2 ^ 32) in
    ground (
      arith,
      length-front (layout.header_bytes (message_header layout p))
          (layout.body_bytes (length p.descriptors % 2 ^ 32)) (is_empty p.descriptors),
      h,
      b,
    )

assembled-counted :
    (layout : Layout) (p : Parts)
    → assembled layout p ≡ (counted layout p ++ concat p.descriptors) ++ p.inline_data
assembled-counted layout p = elim (Bool-cases (is_empty p.descriptors)) [
  | inl none_there ↦ simp (none_there, concat-empty p.descriptors none_there, append-nil) refl
  | inr some_there ↦ simp (some_there, append_assoc) refl
]

-- Building a message never aborts. It gives the bytes of its header, then, if there are descriptors,
-- the bytes of their number and of each of them in order, and then the data, in a buffer of just that
-- length, which is the size in the header up to 32 bits.
pub get_mach_msg_struct-assembled :
    (layout : Layout) (p : Parts)
    → (get_mach_msg_struct layout p ≡ ok (assembled layout p))
      × (length (assembled layout p) ≡ message_size layout p)
      × ((message_header layout p).msgh_size ≡ length (assembled layout p) % 2 ^ 32)
unfolding get_mach_msg_struct
get_mach_msg_struct-assembled layout p =
    let size = message_size layout p in
    let front = counted layout p in
    let described = front ++ concat p.descriptors in
    let copied = copy_descriptors-replicate p.descriptors front (length p.inline_data) in
    let sizes : length described ≡ length front + total_size p.descriptors =
      omega (arith, length-append front (concat p.descriptors), length-concat p.descriptors) in
    let room : List ℕ = replicate (length p.inline_data) 0 in
    let full : size ≡ length described + length p.inline_data =
      ground (arith, sizes, length-counted layout p, total_size-empty p.descriptors) in
    let same = assembled-counted layout p in
    let long : length (assembled layout p) ≡ size =
      ap length same ∙ length-append described p.inline_data ∙ sym full in
    (
      ap
            (λ (st : List ℕ × ℕ).
              end_message layout size p.inline_data (copy_descriptors p.descriptors st.1 st.0))
            (start_message-counted layout p)
          ∙ ap (end_message layout size p.inline_data)
              (copied ∙ ap (λ (n : ℕ). (described ++ room, n)) (sym sizes))
          ∙ end_message-put layout described p.inline_data size full
          ∙ ap ok (sym same),
      long,
      ap (λ n. n % 2 ^ 32) (sym long),
    )
