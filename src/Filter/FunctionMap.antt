-- ===== src/Filter/FunctionMap.antt =====
-- A map as a function of the key, which meets the laws of the concurrent map.
use jocasta.Prelude.{◌≡◌, refl, false, Option, none, some, if◌then◌else◌}
use jocasta.Go.Io.{Bytes}
use jocasta.Go.Net.{bytes_eq, bytes_eq_refl}
use jocasta.Filter.{ConcurrentMap}

module _ (V : Type 0) where
  abbrev pub put : Bytes → V → (Bytes → Option V) → Bytes → Option V
  put k v m l = if bytes_eq k l then some v else m l

  pub put_same : (k : Bytes) (v : V) (m : Bytes → Option V) → put k v m k ≡ some v
  put_same k v m = rw (bytes_eq_refl k) refl

  pub put_other :
      (k l : Bytes) (v : V) (m : Bytes → Option V) → bytes_eq k l ≡ false → put k v m l ≡ m l
  put_other k l v m d = rw d refl

  abbrev pub function_map : ConcurrentMap V
  function_map = record {
    carrier = Bytes → Option V;
    empty = λ k. none;
    get = λ k m. m k;
    put = put;
    get_empty = λ k. refl;
    get_put = put_same;
    get_put_other = put_other;
  }
