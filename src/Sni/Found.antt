-- ===== src/Sni/Found.antt =====
-- The name that is read from a ClientHello.
use jocasta.Prelude.{
  ◌+◌, ◌*◌, ◌≡◌, refl, ap, ◌∙◌, true, false, [], ◌∷◌, ◌++◌, length, leb, ◌==◌, arith, length-append,
}
use jocasta.Go.Result.{ok}
use jocasta.Go.Io.{Bytes}
use jocasta.Go.Slice.{index}
use jocasta.Sni.{SniError, two_bytes, extensions, after_random, client_hello}
use jocasta.Sni.Extensions.{index_at, two_bytes_at}
use jocasta.Sni.Name.{name_bytes, others_bytes, extensions_others}
use jocasta.Sni.Hello.{
  Hello, IsHello, hello_bytes, name, suites_part, methods_part, extensions_part, to_suites,
  to_methods, to_extensions, cut_suites, cut_methods, cut_extensions, at_suites, at_methods,
  at_extensions, total, length_others,
}

module _ (h : Hello) (i : IsHello h) (rest : Bytes) (is : rest ≡ hello_bytes h) where
  size :
      length rest
      ≡ 39
        + length h.session_id
        + 2
        + length h.suites
        + 1
        + length h.methods
        + 2
        + length (extensions_part h)
  size = omega (arith, ap length is, total h i, at_extensions h i)

  after_random-Hello : after_random rest 38 ≡ ok (name h)
  unfolding after_random
  after_random-Hello =
      rw
        (
          after_random, id, room_suites, suites, i.suites_fit, room_methods, methods, room_lengths,
          found, named,
        )
        refl
    where
      named : (length (name h) == 0) ≡ false
      named = ground (arith)

      id : index {E = SniError} rest 38 ≡ ok (length h.session_id)
      id =
          index_at rest (1 ∷ h.start) 38 (omega (arith, i.fixed)) _ (h.session_id ++ suites_part h)
            is

      room_suites : leb (38 + 1 + length h.session_id + 1) (length rest) ≡ true
      room_suites = ground (arith, size)

      suites :
          two_bytes rest (38 + 1 + length h.session_id) ≡ ok (h.suites_high * 256 + h.suites_low)
      suites =
          two_bytes_at rest (to_suites h) _ (omega (arith, at_suites h i)) h.suites_high
            h.suites_low (h.suites ++ methods_part h) (is ∙ cut_suites h i)

      room_methods : leb (38 + 1 + length h.session_id + 2 + length h.suites) (length rest) ≡ true
      room_methods = ground (arith, size)

      methods :
          index {E = SniError} rest (38 + 1 + length h.session_id + 2 + length h.suites)
          ≡ ok (length h.methods)
      methods =
          index_at rest (to_methods h) _ (omega (arith, at_methods h i)) _ _ (is ∙ cut_methods h i)

      room_lengths :
          leb
            (38 + 1 + length h.session_id + 2 + length h.suites + 1 + length h.methods)
            (length rest)
          ≡ true
      room_lengths = ground (arith, size)

      found :
          extensions
            (length rest)
            rest
            (38 + 1 + length h.session_id + 2 + length h.suites + 1 + length h.methods + 2)
            []
          ≡ ok (name h)
      found =
          ap (λ c. extensions (length rest) rest c []) (omega (arith, at_extensions h i))
          ∙ extensions_others h.others (length rest) rest (to_extensions h) h.data_high h.data_low
              h.list_high h.list_low h.name_high h.name_low h.first h.letters h.post i.no_names
              (omega (
                arith,
                size,
                length_others h.others,
                length-append (others_bytes h.others) (
                    name_bytes h.data_high h.data_low h.list_high h.list_low h.name_high h.name_low
                      (name h)
                    ++ h.post),
              ))
              (is ∙ cut_extensions h i) i.name_fits

  -- The name of a ClientHello is what is read from it.
  pub client_hello-Hello : client_hello rest ≡ ok (name h)
  unfolding client_hello
  client_hello-Hello = rw (client_hello, some_bytes, kind, room, after_random-Hello) refl
    where
      some_bytes : (length rest == 0) ≡ false
      some_bytes = ground (arith, size)

      kind : index {E = SniError} rest 0 ≡ ok 1
      kind = index_at rest [] 0 refl 1 _ is

      room : leb 38 (length rest) ≡ true
      room = ground (arith, size)
