-- ===== src/Midterm/Requests.antt =====
-- midterm: what a line that the user of a client types makes the server do.
use cse_344_homeworks.Prelude.{
  All-append, ℕ, ◌+◌, ◌<◌, ◌≤◌, ◌≡◌, ◌≢◌, ◌∙◌, refl, ap, arith, Bool, true, false, not, [], ◌∷◌,
  ◌++◌, some, ◌==◌, take, take_all, length, length-append, All, if◌then◌else◌, lt→ltb, ◌&&◌,
}
use cse_344_homeworks.Prelude.Text.{Text, codes, str_eq, starts_with}
use cse_344_homeworks.Students.Scan.{split_while}
use cse_344_homeworks.Midterm.Commands.{
  skip_delimiter, strtok, execute, serve, upload, download, received, undefined, token_end,
  fits_array,
}
use cse_344_homeworks.Midterm.Answers.{respond}
use cse_344_homeworks.Midterm.Client.{sent, client_round, cut_last, is_valid_among}

-- A word: one character at least, and no space.
abbrev pub IsWord : Text → Type 0
IsWord s = (s ≢ []) × All (λ c. (c == b' ') ≡ false) s

split_while-before :
    (test : ℕ → Bool) (s : Text) (c : ℕ) (rest : Text)
    → All (λ d. test d ≡ true) s
    → test c ≡ false
    → split_while test (s ++ (c ∷ rest)) ≡ (s, c ∷ rest)
unfolding split_while
split_while-before test [] c rest h e = rw e refl
split_while-before test (d ∷ s) c rest (hd, h) e =
    rw (hd, split_while-before test s c rest h e) refl

split_while-All :
    (test : ℕ → Bool) (s : Text) → All (λ d. test d ≡ true) s → split_while test s ≡ (s, [])
unfolding split_while
split_while-All test [] h = refl
split_while-All test (d ∷ s) (hd, h) = rw (hd, split_while-All test s h) refl

others : (s : Text) → All (λ c. (c == b' ') ≡ false) s → All (λ c. not (c == b' ') ≡ true) s
others [] h = tt
others (c ∷ s) (hc, h) = (rw hc refl, others s h)

-- The next token up to a space, and the last one.
strtok-word : (w rest : Text) → IsWord w → strtok b' ' (w ++ (b' ' ∷ rest)) ≡ some (w, rest)
unfolding strtok skip_delimiter
strtok-word [] rest (h, _) = absurd (h refl)
strtok-word (c ∷ w) rest (_, (hc, h)) =
    rw
      (
        hc,
        split_while-before (λ d. not (d == b' ')) (c ∷ w) b' ' rest (others (c ∷ w) (hc, h)) refl,
      )
      refl

strtok-last : (w : Text) → IsWord w → strtok b' ' w ≡ some (w, [])
unfolding strtok skip_delimiter
strtok-last [] (h, _) = absurd (h refl)
strtok-last (c ∷ w) (_, (hc, h)) =
    rw (hc, split_while-All (λ d. not (d == b' ')) (c ∷ w) (others (c ∷ w) (hc, h))) refl

cut_last-snoc : (s : Text) (c : ℕ) → cut_last (s ++ (c ∷ [])) ≡ s
cut_last-snoc [] c = refl
cut_last-snoc (d ∷ []) c = refl
cut_last-snoc (d ∷ e ∷ s) c = ap (◌∷◌ d) (cut_last-snoc (e ∷ s) c)

token_end-le : (buffer rest : Text) → token_end buffer rest ≤ length buffer
token_end-le buffer rest = ground arith

-- `name` and `dir/` behind a command, as the client sends them.
abbrev pub request : (command name dir : Text) → Text
request command name dir = command ++ (b' ' ∷ name ++ (b' ' ∷ dir ++ (b'/' ∷ [])))

upload-IsWord : IsWord (codes "upload")
upload-IsWord = (λ e. absurd (cc), (refl, (refl, (refl, (refl, (refl, (refl, tt)))))))

download-IsWord : IsWord (codes "download")
download-IsWord =
    (λ e. absurd (cc), (refl, (refl, (refl, (refl, (refl, (refl, (refl, (refl, tt)))))))))

module _ (name dir : Text) (is_name : IsWord name) (is_dir : IsWord dir)
    (short : length name + length dir < 255) (near : length dir < 100) where
  abbrev slash : Text
  slash = dir ++ (b'/' ∷ [])

  slash-IsWord : IsWord slash
  slash-IsWord =
      let (_, plain) = is_dir in
      (
        λ e. absurd (omega (arith, length-append dir (b'/' ∷ []), ap length e)),
        All-append (λ c. (c == b' ') ≡ false) dir (b'/' ∷ []) plain (refl, tt),
      )

  request_fits : (command : Text) → length command ≤ 8 → length (request command name dir) ≤ 270
  request_fits command h = omega (
    arith,
    length-append command (b' ' ∷ name ++ (b' ' ∷ slash)),
    length-append name (b' ' ∷ slash),
    length-append dir (b'/' ∷ []),
  )

  received_whole :
      (command : Text)
      → length command ≤ 8
      → received (request command name dir) ≡ request command name dir
  received_whole command h =
      take_all 1024 (request command name dir) (omega (arith, request_fits command h))

  -- `strcat` and `strcpy` stay within their arrays.
  upload_fits :
      (left_first : Bool) (rest command : Text)
      → length command ≤ 8
      → let r = request command name dir in
        let joined = if left_first then name ++ slash else slash ++ name in
        (if fits_array 1024 (token_end r rest + length (if left_first then slash else name))
            && fits_array 256 (length joined)
          then execute (codes "/bin/cp") (codes "cp" ∷ joined ∷ codes "." ∷ [])
          else undefined)
        ≡ execute (codes "/bin/cp") (codes "cp" ∷ joined ∷ codes "." ∷ [])
  upload_fits true rest command k =
      let r = request command name dir in
      let one = token_end-le r rest in
      let two : length (name ++ slash) < 256 =
        omega (arith, length-append name slash, length-append dir (b'/' ∷ [])) in
      let three : token_end r rest + length slash < 1024 =
        omega (arith, one, request_fits command k, length-append dir (b'/' ∷ [])) in
      rw (lt→ltb _ _ three, lt→ltb _ _ two) refl
  upload_fits false rest command k =
      let r = request command name dir in
      let one = token_end-le r rest in
      let two : length (slash ++ name) < 256 =
        omega (arith, length-append slash name, length-append dir (b'/' ∷ [])) in
      let three : token_end r rest + length name < 1024 =
        omega (arith, one, request_fits command k) in
      rw (lt→ltb _ _ three, lt→ltb _ _ two) refl

  upload-request :
      (left_first : Bool) (command : Text)
      → IsWord command
      → length command ≤ 8
      → upload left_first (request command name dir)
        ≡ execute
            (codes "/bin/cp")
            (codes "cp" ∷ (if left_first then name ++ slash else slash ++ name) ∷ codes "." ∷ [])
  unfolding upload
  upload-request left_first command h k =
      let first = strtok-word command (name ++ (b' ' ∷ slash)) h in
      let second = strtok-word name slash is_name in
      rw (upload, first, second, first, second, strtok-last slash slash-IsWord)
        (upload_fits left_first _ command k)

  download-request :
      (command : Text)
      → IsWord command
      → download (request command name dir)
        ≡ execute (codes "/bin/cp") (codes "cp" ∷ name ∷ slash ∷ [])
  unfolding download
  download-request command h =
      rw
        (
          strtok-word command (name ++ (b' ' ∷ slash)) h,
          strtok-word name slash is_name,
          strtok-last slash slash-IsWord,
        )
        refl

  sent_whole :
      (line : Text)
      → length line ≤ 1010
      → take 65535 (cut_last (line ++ (10 ∷ [])) ++ (b' ' ∷ slash)) ≡ line ++ (b' ' ∷ slash)
  sent_whole line h =
      ap (λ l. take 65535 (l ++ (b' ' ∷ slash))) (cut_last-snoc line 10)
      ∙ take_all 65535 (line ++ (b' ' ∷ slash))
          (omega (arith, length-append line (b' ' ∷ slash), length-append dir (b'/' ∷ [])))

  upload_sent :
      client_round (some (codes "upload " ++ (name ++ (10 ∷ [])))) (some dir)
      ≡ sent (request (codes "upload") name dir)
  unfolding client_round str_eq starts_with is_valid_among
  upload_sent =
      rw (lt→ltb (length dir) 100 near)
        (ap sent (sent_whole (codes "upload " ++ name) (omega arith)))

  download_sent :
      client_round (some (codes "download " ++ (name ++ (10 ∷ [])))) (some dir)
      ≡ sent (request (codes "download") name dir)
  unfolding client_round str_eq starts_with is_valid_among
  download_sent =
      rw (lt→ltb (length dir) 100 near)
        (ap sent (sent_whole (codes "download " ++ name) (omega arith)))

  -- The user of a client types "upload" or "download" and the name of a file, with one space between
  -- them; the name and the working directory of the client hold no space, have less than 255
  -- characters together, and the directory less than 100. Then the client sends the name and the directory, and the server copies the
  -- file from the name to the directory, for "download", or from the directory to its own, for "upload",
  -- provided that the right call of strtok in `upload` comes first; if the left one does, it asks for a
  -- path in the wrong order. In any case the answer is that the task was completed successfully,
  -- whether or not the copy succeeds.
  pub transfers :
      (left_first archived : Bool) (piped : Text)
      → let up = request (codes "upload") name dir in
        let down = request (codes "download") name dir in
        let done = some (codes "Task completed successfully.\n") in
        let slash = dir ++ (b'/' ∷ []) in
        (client_round (some (codes "upload " ++ (name ++ (10 ∷ [])))) (some dir) ≡ sent up)
        × (serve left_first (received up)
            ≡ execute (codes "/bin/cp") (
                codes "cp"
                ∷ (if left_first then name ++ slash else slash ++ name)
                ∷ codes "."
                ∷ []))
        × (respond archived piped (received up) ≡ done)
        × (client_round (some (codes "download " ++ (name ++ (10 ∷ [])))) (some dir) ≡ sent down)
        × (serve left_first (received down)
            ≡ execute (codes "/bin/cp") (codes "cp" ∷ name ∷ slash ∷ []))
        × (respond archived piped (received down) ≡ done)
  unfolding serve respond starts_with
  transfers left_first archived piped = (
    upload_sent,
    ap (serve left_first) (received_whole (codes "upload") (omega arith))
        ∙ upload-request left_first (codes "upload") upload-IsWord (omega arith),
    ap (respond archived piped) (received_whole (codes "upload") (omega arith)),
    download_sent,
    ap (serve left_first) (received_whole (codes "download") (omega arith))
        ∙ download-request (codes "download") download-IsWord,
    ap (respond archived piped) (received_whole (codes "download") (omega arith)),
  )
