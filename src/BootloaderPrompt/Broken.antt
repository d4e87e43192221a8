-- ===== src/BootloaderPrompt/Broken.antt =====
-- When the parser of the bootloader's console (src/ezsp/bootloader-prompt-driver.cpp, appendIncoming)
-- makes a version string whose end lies before its beginning.
use libezsp.Common.{ℕ, zero, suc, ◌+◌, ◌≡◌, ◌∙◌, ◌⊎◌, inl, inr, refl, ap, sym, arith}
use libezsp.Common.{true, false, List, [], ◌∷◌, ◌++◌, Option, none, some, drop, length}
use libezsp.Common.{find_text, starts_with, find_text_sound, drop-drop, drop-length_add}
use libezsp.BootloaderPrompt.{BootloaderPromptDriver, toplevel_menu_header}
use libezsp.BootloaderPrompt.Console.{gecko_bootloader_header}
use libezsp.BootloaderPrompt.Console.{accumulate, at_header, end_of_version, find_header}
use libezsp.BootloaderPrompt.Console.{find_version}

-- An empty line stands behind the first header in what is accumulated with the bytes of a call, or at
-- its beginning while the parser waits for the version and there is no header.
abbrev pub HasEmptyVersion : List ℕ → BootloaderPromptDriver → Type 0
HasEmptyVersion data_in b =
    let text = (accumulate data_in false b.accumulated_bytes).0 in
    ((pre : List ℕ) × (post : List ℕ) × (text ≡ pre ++ (gecko_bootloader_header ++ (b'\n' ∷ post)))
      × (find_text gecko_bootloader_header text ≡ some (length pre)))
    ⊎ ((b.state ≡ toplevel_menu_header)
        × (post : List ℕ) × (text ≡ b'\n' ∷ post)
        × (find_text gecko_bootloader_header text ≡ none))

starts_with_split : (p s : List ℕ) → starts_with p s ≡ true → s ≡ p ++ drop (length p) s
unfolding starts_with
starts_with_split [] s h = refl
starts_with_split (c ∷ p) [] h = ground arith
starts_with_split (c ∷ p) (d ∷ s) h = ground (arith, starts_with_split p s)

-- What stands before the place where a text is found.
found_split :
    (p s : List ℕ) (i : ℕ)
    → find_text p s ≡ some i
    → (pre : List ℕ) × (s ≡ pre ++ drop i s) × (length pre ≡ i)
unfolding find_text
found_split p [] i h = ground arith
found_split p (c ∷ s) zero h = ([], refl, refl)
found_split p (c ∷ s) (suc i) h =
    let further : find_text p s ≡ some i = ground arith in
    let (pre, e, n) = found_split p s i further in (c ∷ pre, ap (λ r. c ∷ r) e, omega (arith, n))

end_none : (o : Option ℕ) (b : BootloaderPromptDriver) → end_of_version o b ≡ none → o ≡ some 0
end_none none b h = ground arith
end_none (some zero) b h = refl
end_none (some (suc i)) b h = ground arith

find_version-none :
    (b : BootloaderPromptDriver)
    → find_version b ≡ none
    → (b.state ≡ toplevel_menu_header) × (find_text (b'\n' ∷ []) b.accumulated_bytes ≡ some 0)
unfolding find_version
find_version-none b h = ground (arith, end_none (find_text (b'\n' ∷ []) b.accumulated_bytes) b)

at_line :
    (bytes : List ℕ)
    → find_text (b'\n' ∷ []) bytes ≡ some 0
    → (post : List ℕ) × (bytes ≡ b'\n' ∷ post)
at_line bytes h =
    (drop 1 bytes, starts_with_split (b'\n' ∷ []) bytes (find_text_sound (b'\n' ∷ []) bytes 0 h))

module _ (text : List ℕ) (b : BootloaderPromptDriver) where
  -- The parser with a text that is accumulated.
  abbrev holding : BootloaderPromptDriver
  holding = record b { accumulated_bytes = text }

  stops_behind :
      (i : ℕ)
      → find_text gecko_bootloader_header text ≡ some i
      → find_version (at_header (some i) holding) ≡ none
      → (pre : List ℕ) × (post : List ℕ) × (text
          ≡ pre ++ (gecko_bootloader_header ++ (b'\n' ∷ post)))
        × (find_text gecko_bootloader_header text ≡ some (length pre))
  stops_behind i found h =
      let (pre, e, n) = found_split gecko_bootloader_header text i found in
      let (state, line) = find_version-none (at_header (some i) holding) h in
      let (post, behind) = at_line (drop (i + length gecko_bootloader_header) text) line in
      let here =
        starts_with_split gecko_bootloader_header (drop i text)
          (find_text_sound gecko_bootloader_header text i found) in
      (
        pre,
        post,
        e
            ∙ ap (λ r. pre ++ r)
                (here
                  ∙ ap (λ r. gecko_bootloader_header ++ r)
                      (drop-drop i (length gecko_bootloader_header) text ∙ behind)),
        found ∙ ap some (sym n),
      )

  stops_at :
      find_text gecko_bootloader_header text ≡ none
      → find_version holding ≡ none
      → (b.state ≡ toplevel_menu_header)
        × (post : List ℕ) × (text ≡ b'\n' ∷ post)
        × (find_text gecko_bootloader_header text ≡ none)
  stops_at absent h =
      let (state, line) = find_version-none holding h in
      let (post, e) = at_line text line in (state, post, e, absent)

  pub reason :
      (o : Option ℕ)
      → find_text gecko_bootloader_header text ≡ o
      → find_version (at_header o holding) ≡ none
      → ((pre : List ℕ) × (post : List ℕ) × (text
            ≡ pre ++ (gecko_bootloader_header ++ (b'\n' ∷ post)))
          × (find_text gecko_bootloader_header text ≡ some (length pre)))
        ⊎ ((b.state ≡ toplevel_menu_header)
            × (post : List ℕ) × (text ≡ b'\n' ∷ post)
            × (find_text gecko_bootloader_header text ≡ none))
  reason none e h = inr (stops_at e h)
  reason (some i) e h = inl (stops_behind i e h)

  -- Behind a header.
  pub breaks_behind :
      (pre post : List ℕ)
      → text ≡ pre ++ (gecko_bootloader_header ++ (b'\n' ∷ post))
      → find_text gecko_bootloader_header text ≡ some (length pre)
      → find_version (find_header holding) ≡ none
  unfolding find_header find_version find_text starts_with
  breaks_behind pre post whole found =
      let n = length gecko_bootloader_header in
      ap (λ o. find_version (at_header o holding)) found
      ∙ ap
          (λ bytes.
            find_version (record b { state = toplevel_menu_header; accumulated_bytes = bytes }))
          (ap (drop (length pre + n)) whole
            ∙ drop-length_add n pre (gecko_bootloader_header ++ (b'\n' ∷ post)))

  pub breaks_at :
      (post : List ℕ)
      → b.state ≡ toplevel_menu_header
      → text ≡ b'\n' ∷ post
      → find_text gecko_bootloader_header text ≡ none
      → find_version (find_header holding) ≡ none
  unfolding find_header find_version find_text starts_with
  breaks_at post state whole absent =
      ap (λ o. find_version (at_header o holding)) absent
      ∙ ap (λ st. find_version (record b { state = st; accumulated_bytes = text })) state
      ∙ ap
          (λ bytes.
            find_version (record b { state = toplevel_menu_header; accumulated_bytes = bytes }))
          whole
