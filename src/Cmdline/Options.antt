-- ===== src/Cmdline/Options.antt =====
-- Command lines that are written from options and read back.
use libdwarfs.Prelude.{
  ℕ, ◌≡◌, ◌≢◌, refl, ap, ◌∙◌, Bool, true, false, List, [], ◌∷◌, ◌++◌, Bytes, append_assoc,
  append-nil, bytes_eq, if◌then◌else◌, arith,
}
use libdwarfs.Result.{ok}
use libdwarfs.Cmdline.{
  Settings, kind, mount_value, mount_alone, other, mount_key, is_flag, add_mount, add_other,
  parse_arguments,
}

-- A plain argument, and a mount rule in one argument or in two.
pub data Item : Type 0 where
  plain mount_joined mount_split : Bytes → Item

abbrev pub written : List Item → List Bytes
written [] = []
written (plain arg ∷ items) = arg ∷ written items
written (mount_joined rule ∷ items) = (mount_key ++ 61 ∷ rule) ∷ written items
written (mount_split rule ∷ items) = mount_key ∷ rule ∷ written items

abbrev pub rules : List Item → List Bytes
rules [] = []
rules (plain arg ∷ items) = rules items
rules (mount_joined rule ∷ items) = rule ∷ rules items
rules (mount_split rule ∷ items) = rule ∷ rules items

abbrev pub plains : List Item → List Bytes
plains [] = []
plains (plain arg ∷ items) = arg ∷ plains items
plains (mount_joined rule ∷ items) = plains items
plains (mount_split rule ∷ items) = plains items

-- A plain argument is none of the options, and a rule is not empty, or not a flag where it stands alone.
abbrev pub IsWritable : List Item → Type 0
IsWritable [] = Unit {0}
IsWritable (plain arg ∷ items) = (kind arg ≡ other) × IsWritable items
IsWritable (mount_joined rule ∷ items) = (bytes_eq rule [] ≡ false) × IsWritable items
IsWritable (mount_split rule ∷ items) = (is_flag rule ≡ false) × IsWritable items

abbrev pub extended : Settings → List Bytes → List Bytes → Settings
extended o ms args = record o {
  mountpoints = o.mountpoints ++ ms;
  other_args = o.other_args ++ args;
}

parse-plain :
    (o : Settings) (arg : Bytes) (rest : List Bytes)
    → kind arg ≡ other
    → parse_arguments o (arg ∷ rest) ≡ parse_arguments (add_other o arg) rest
unfolding parse_arguments
parse-plain o arg [] k = rw (parse_arguments, k) refl
parse-plain o arg (next ∷ rest) k = rw (parse_arguments, k) refl

kind-joined : (rule : Bytes) → kind (mount_key ++ 61 ∷ rule) ≡ mount_value rule
unfolding kind libdwarfs.Prelude.Strings.starts_with
kind-joined rule = refl

kind-mount_key : kind mount_key ≡ mount_alone
unfolding kind libdwarfs.Prelude.Strings.starts_with bytes_eq
kind-mount_key = refl

parse-joined :
    (o : Settings) (rule : Bytes) (rest : List Bytes)
    → bytes_eq rule [] ≡ false
    → parse_arguments o ((mount_key ++ 61 ∷ rule) ∷ rest) ≡ parse_arguments (add_mount o rule) rest
unfolding parse_arguments
parse-joined o rule [] n = rw (parse_arguments, kind-joined rule, n) refl
parse-joined o rule (next ∷ rest) n = rw (parse_arguments, kind-joined rule, n) refl

parse-split :
    (o : Settings) (rule : Bytes) (rest : List Bytes)
    → is_flag rule ≡ false
    → parse_arguments o (mount_key ∷ rule ∷ rest) ≡ parse_arguments (add_mount o rule) rest
unfolding parse_arguments
parse-split o rule rest n = rw (parse_arguments, kind-mount_key, n) refl

-- Arguments that are none of the options, and mount rules in either form, not empty where they follow
-- a `=` and no flags where they stand alone, are read back in any mixture, each kind in its order.
pub parse_arguments-written :
    (items : List Item) (o : Settings)
    → IsWritable items
    → parse_arguments o (written items) ≡ ok (extended o (rules items) (plains items))
unfolding parse_arguments
parse_arguments-written [] o w = rw (append-nil o.mountpoints, append-nil o.other_args) refl
parse_arguments-written (plain arg ∷ items) o w =
    parse-plain o arg (written items) w.0
    ∙ parse_arguments-written items (add_other o arg) w.1
    ∙ ap (λ args. ok (record o { mountpoints = o.mountpoints ++ rules items; other_args = args }))
        (append_assoc o.other_args (arg ∷ []) (plains items))
parse_arguments-written (mount_joined rule ∷ items) o w =
    parse-joined o rule (written items) w.0
    ∙ parse_arguments-written items (add_mount o rule) w.1
    ∙ ap (λ ms. ok (record o { mountpoints = ms; other_args = o.other_args ++ plains items }))
        (append_assoc o.mountpoints (rule ∷ []) (rules items))
parse_arguments-written (mount_split rule ∷ items) o w =
    parse-split o rule (written items) w.0
    ∙ parse_arguments-written items (add_mount o rule) w.1
    ∙ ap (λ ms. ok (record o { mountpoints = ms; other_args = o.other_args ++ plains items }))
        (append_assoc o.mountpoints (rule ∷ []) (rules items))
