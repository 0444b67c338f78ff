-- ===== src/Cwd/Logged.antt =====
-- tebako_path_s and tebako_path_s_l of src/tebako-io-helpers.cpp: the current directory with a log around
-- each method. tebako_init_cwd makes the second one, whichever policy is asked for.
use libdwarfs.Prelude.{◌≡◌, refl, ap, Bool, Option, none, some, List, [], ◌∷◌, ◌++◌, Bytes, ascii}
use libdwarfs.Paths.{FsPath, parse, lexically_normal}
use libdwarfs.Cwd.{tebako_path_assign, is_in, expand_path}

-- A call of one of the methods. A path may be a null pointer; the buffer of `expand_path` holds something
-- before the call.
pub data Call : Type 0 where
  get_cwd : Call
  set_cwd : Option Bytes → Call
  asks_in : Call
  expands : Bytes → Option Bytes → Call

-- What a method gives.
pub data Reply : Type 0 where
  text : Option Bytes → Reply
  flag : Bool → Reply
  nothing : Reply

-- The messages, with what they show.
pub data Message : Type 0 where
  constructing : Message
  returning : Bytes → Message
  setting : Option Bytes → Message
  answering : Bool → Message
  expanding : Option Bytes → Bytes → Message

pub record Logged : Type 0 where
  pub p : FsPath
  pub log : List Message

unfoldable pub construct : Logged
construct = record { p = []; log = constructing ∷ [] }

-- tebako_path_s
unfoldable pub set_path : FsPath → Option Bytes → FsPath
set_path p none = []
set_path p (some path) = lexically_normal (parse (path ++ ascii "/"))

unfoldable pub expanded : FsPath → Option Bytes → Option Bytes
expanded p none = none
expanded p (some path) = some (expand_path p path)

unfoldable pub plain_call : FsPath → Call → FsPath × Reply
plain_call p get_cwd = (p, text (some (tebako_path_assign p)))
plain_call p (set_cwd path) = (set_path p path, nothing)
plain_call p asks_in = (p, flag (is_in p))
plain_call p (expands buffer path) = (p, text (expanded p path))

-- tebako_path_s_l. `expand_path` gives the buffer, not what the method of the base class gives.
abbrev filled : Bytes → Option Bytes → Bytes
filled buffer none = buffer
filled buffer (some t) = t

unfoldable pub logged_call : Logged → Call → Logged × Reply
logged_call s get_cwd =
    let cwd = tebako_path_assign s.p in (record s { log = returning cwd ∷ s.log }, text (some cwd))
logged_call s (set_cwd path) =
    (record s { p = set_path s.p path; log = setting path ∷ s.log }, nothing)
logged_call s asks_in = (record s { log = answering (is_in s.p) ∷ s.log }, flag (is_in s.p))
logged_call s (expands buffer path) =
    let out = filled buffer (expanded s.p path) in
    (record s { log = expanding path out ∷ s.log }, text (some out))

unfoldable pub plain_calls : FsPath → List Call → FsPath × List Reply
plain_calls p [] = (p, [])
plain_calls p (c ∷ cs) =
    let (p', r) = plain_call p c in let (p'', rs) = plain_calls p' cs in (p'', r ∷ rs)

unfoldable pub logged_calls : Logged → List Call → Logged × List Reply
logged_calls s [] = (s, [])
logged_calls s (c ∷ cs) =
    let (s', r) = logged_call s c in let (s'', rs) = logged_calls s' cs in (s'', r ∷ rs)

-- No null pointer is to be expanded.
abbrev pub NoneNull : List Call → Type 0
NoneNull [] = Unit {0}
NoneNull (expands buffer none ∷ cs) = ⊥
NoneNull (c ∷ cs) = NoneNull cs

-- With any calls in which no null pointer is expanded, the class with the log gives what the one without
-- gives, and is left with the same directory.
pub logged_calls_lem :
    (s : Logged) (cs : List Call)
    → NoneNull cs
    → ((logged_calls s cs).0.p ≡ (plain_calls s.p cs).0)
      × ((logged_calls s cs).1 ≡ (plain_calls s.p cs).1)
unfolding logged_calls plain_calls logged_call plain_call expanded
logged_calls_lem s [] h = (refl, refl)
logged_calls_lem s (get_cwd ∷ cs) h =
    let k = logged_calls_lem (logged_call s get_cwd).0 cs h in
    (k.0, ap (◌∷◌ (plain_call s.p get_cwd).1) k.1)
logged_calls_lem s (set_cwd path ∷ cs) h =
    let k = logged_calls_lem (logged_call s (set_cwd path)).0 cs h in
    (k.0, ap (◌∷◌ (plain_call s.p (set_cwd path)).1) k.1)
logged_calls_lem s (asks_in ∷ cs) h =
    let k = logged_calls_lem (logged_call s asks_in).0 cs h in
    (k.0, ap (◌∷◌ (plain_call s.p asks_in).1) k.1)
logged_calls_lem s (expands buffer none ∷ cs) h = absurd h
logged_calls_lem s (expands buffer (some path) ∷ cs) h =
    let k = logged_calls_lem (logged_call s (expands buffer (some path))).0 cs h in
    (k.0, ap (◌∷◌ (plain_call s.p (expands buffer (some path))).1) k.1)
