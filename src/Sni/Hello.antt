-- ===== src/Sni/Hello.antt =====
-- A ClientHello as RFC 5246 and RFC 6066 lay it out, and the name that is read from it.
use jocasta.Prelude.{
  ℕ, ◌+◌, ◌*◌, ◌≤◌, ◌≡◌, sym, ap, ◌∙◌, [], ◌∷◌, ◌++◌, List, All, length, arith, length-append,
  append_assoc,
}
use jocasta.Go.Io.{Bytes}
use jocasta.Sni.Extensions.{Extension, IsOther}
use jocasta.Sni.Name.{name_bytes, others_bytes}

-- What stands behind the type of the message: its length, the version and the random bytes; the
-- session id, the cipher suites and the compression methods behind their lengths; the length of the
-- extensions; the extensions up to the server name, the name, and what follows it.
pub record Hello : Type 0 where
  pub start : Bytes
  pub session_id : Bytes
  pub suites_high : ℕ
  pub suites_low : ℕ
  pub suites : Bytes
  pub methods : Bytes
  pub extensions_high : ℕ
  pub extensions_low : ℕ
  pub others : List Extension
  pub data_high : ℕ
  pub data_low : ℕ
  pub list_high : ℕ
  pub list_low : ℕ
  pub name_high : ℕ
  pub name_low : ℕ
  pub first : ℕ
  pub letters : Bytes
  pub post : Bytes

abbrev pub name : Hello → Bytes
name h = h.first ∷ h.letters

abbrev pub extensions_part : Hello → Bytes
extensions_part h =
    others_bytes h.others
    ++ (name_bytes h.data_high h.data_low h.list_high h.list_low h.name_high h.name_low (name h)
        ++ h.post)

abbrev pub methods_part : Hello → Bytes
methods_part h =
    length h.methods ∷ (h.methods ++ (h.extensions_high ∷ h.extensions_low ∷ extensions_part h))

abbrev pub suites_part : Hello → Bytes
suites_part h = h.suites_high ∷ h.suites_low ∷ (h.suites ++ methods_part h)

abbrev pub hello_bytes : Hello → Bytes
hello_bytes h = (1 ∷ h.start) ++ (length h.session_id ∷ (h.session_id ++ suites_part h))

-- The lengths say how long the parts are, and the other extensions are no server names.
pub record IsHello (h : Hello) : Type 0 where
  pub fixed : length h.start ≡ 37
  pub suites_fit : h.suites_high * 256 + h.suites_low ≡ length h.suites
  pub name_fits : h.name_high * 256 + h.name_low ≡ length (name h)
  pub no_names : All IsOther h.others

-- The front of the message up to each part.
abbrev pub to_suites : Hello → Bytes
to_suites h = (1 ∷ h.start) ++ (length h.session_id ∷ h.session_id)

abbrev pub to_methods : Hello → Bytes
to_methods h = to_suites h ++ (h.suites_high ∷ h.suites_low ∷ h.suites)

abbrev pub to_extensions : Hello → Bytes
to_extensions h =
    to_methods h ++ (length h.methods ∷ (h.methods ++ (h.extensions_high ∷ h.extensions_low ∷ [])))

pub length_others : (es : List Extension) → length es ≤ length (others_bytes es)
length_others [] = omega arith
length_others (e ∷ es) = omega (arith, length_others es, length-append e.contents (others_bytes es))

module _ (h : Hello) (i : IsHello h) where
  pub cut_suites : hello_bytes h ≡ to_suites h ++ suites_part h
  cut_suites = sym (append_assoc (1 ∷ h.start) (length h.session_id ∷ h.session_id) (suites_part h))

  pub cut_methods : hello_bytes h ≡ to_methods h ++ methods_part h
  cut_methods =
      cut_suites
      ∙ sym (append_assoc (to_suites h) (h.suites_high ∷ h.suites_low ∷ h.suites) (methods_part h))

  pub cut_extensions : hello_bytes h ≡ to_extensions h ++ extensions_part h
  cut_extensions =
      cut_methods
      ∙ ap (λ t. to_methods h ++ (length h.methods ∷ t))
          (sym (
            append_assoc h.methods (h.extensions_high ∷ h.extensions_low ∷ []) (extensions_part h)))
      ∙ sym (
          append_assoc (to_methods h)
            (length h.methods ∷ (h.methods ++ (h.extensions_high ∷ h.extensions_low ∷ [])))
            (extensions_part h))

  pub at_suites : length (to_suites h) ≡ 39 + length h.session_id
  at_suites =
      omega (arith, i.fixed, length-append (1 ∷ h.start) (length h.session_id ∷ h.session_id))

  pub at_methods : length (to_methods h) ≡ 39 + length h.session_id + 2 + length h.suites
  at_methods =
      omega
        (arith, at_suites, length-append (to_suites h) (h.suites_high ∷ h.suites_low ∷ h.suites))

  pub at_extensions :
      length (to_extensions h)
      ≡ 39 + length h.session_id + 2 + length h.suites + 1 + length h.methods + 2
  at_extensions = omega (
    arith,
    at_methods,
    length-append (to_methods h)
        (length h.methods ∷ (h.methods ++ (h.extensions_high ∷ h.extensions_low ∷ []))),
    length-append h.methods (h.extensions_high ∷ h.extensions_low ∷ []),
  )

  pub total : length (hello_bytes h) ≡ length (to_extensions h) + length (extensions_part h)
  total = ap length cut_extensions ∙ length-append (to_extensions h) (extensions_part h)
