-- ===== src/Validator/Attributes/Written.antt =====
-- What `_encode_meta_attributes` of hedwig/validators/base.py writes: hedwig's own attributes, and the
-- headers behind them.
use hedwig_python.Prelude.{
  String, ◌≡◌, refl, sym, ◌∙◌, true, false, [], ◌∷◌, ◌++◌, some, arith, All, All-append, ==_iff,
  string_eq,
}
use hedwig_python.Python.Dict.{
  get, get-append_right, has_key-fresh, has_key, IsDict, has_key-append, update-fresh,
  IsDict-append,
}
use hedwig_python.Python.Exn.{ok, ok-inj}
use hedwig_python.Python.Value.{Key, name, other_key, Value, Entries, key_eq, is_str}
use hedwig_python.Text.Prefix.{starts_with}
use hedwig_python.Validator.{MetaAttributes}
use hedwig_python.Validator.Headers.{reserved, IsText, IsSane}
use hedwig_python.Validator.Attributes.{own_attributes, encode_meta_attributes}
use hedwig_python.Validator.Attributes.RoundTrip.{own-IsFresh, not_reserved_ne}

reserved_absent :
    (s : String) (m : Entries)
    → starts_with s reserved ≡ true
    → All IsSane m
    → has_key (name s) m ≡ false
unfolding has_key
reserved_absent s [] r h = refl
reserved_absent s ((name k, v) ∷ m) r (here, there) =
    ground
      (arith, not_reserved_ne s k r here.2, ==_iff s k, ==_iff k s, reserved_absent s m r there)
reserved_absent s ((other_key n, v) ∷ m) r (here, there) = reserved_absent s m r there

pub sane-IsText : (m : Entries) → All IsSane m → All IsText m
sane-IsText [] h = tt
sane-IsText ((k, v) ∷ m) (here, there) = ((here.0, here.1), sane-IsText m there)

module _ (show : Value → String) (meta : MetaAttributes) (sane : All IsSane meta.headers)
    (once : IsDict meta.headers) where
  own-IsDict : IsDict (own_attributes show meta)
  unfolding own_attributes has_key
  own-IsDict = (refl, (refl, (refl, (refl, (refl, tt)))))

  -- The attributes are hedwig's own, then the headers.
  pub encoded :
      (attributes : Entries)
      → encode_meta_attributes show true meta ≡ ok attributes
      → own_attributes show meta ++ meta.headers ≡ attributes
  unfolding encode_meta_attributes
  encoded attributes h =
      sym (
        update-fresh (own_attributes show meta) meta.headers once
          (own-IsFresh show meta meta.headers sane))
      ∙ ok-inj h

  pub no_key :
      (s : String)
      → starts_with s reserved ≡ true
      → has_key (name s) (own_attributes show meta) ≡ false
      → has_key (name s) (own_attributes show meta ++ meta.headers) ≡ false
  no_key s r own =
      rw (has_key-append (name s) (own_attributes show meta) meta.headers)
        (rw own (reserved_absent s meta.headers r sane))

  -- Each attribute is there once.
  pub written-IsDict : IsDict (own_attributes show meta ++ meta.headers)
  written-IsDict =
      IsDict-append (own_attributes show meta) meta.headers own-IsDict once
        (own-IsFresh show meta meta.headers sane)

  pub written-IsText :
      is_str meta.publisher ≡ true
      → is_str meta.schema ≡ true
      → All IsText (own_attributes show meta ++ meta.headers)
  unfolding own_attributes
  written-IsText publisher schema =
      All-append IsText (own_attributes show meta) meta.headers
        ((refl, refl), ((refl, refl), ((refl, refl), ((refl, publisher), ((refl, schema), tt)))))
        (sane-IsText meta.headers sane)

  -- A header is an attribute of its name.
  pub get-written :
      (k : Key) (v : Value)
      → get k meta.headers ≡ some v
      → get k (own_attributes show meta ++ meta.headers) ≡ some v
  get-written k v h =
      get-append_right k (own_attributes show meta) meta.headers (
        has_key-fresh k v (own_attributes show meta) meta.headers
          (own-IsFresh show meta meta.headers sane) h)
      ∙ h
