-- ===== src/Pstree/Main/Options.antt =====
-- minilab/pstree, main: what the loop over the options leaves in the flags.
use jyyos.Prelude.{
  ◌≡◌, refl, sym, ap, Bool, true, false, ◌||◌, if◌then◌else◌, none, some, List, [], ◌∷◌,
}
use jyyos.Pstree.Print.{Opt, show_pids, numeric_sort, version, help, unrecognized, Flags, read_opts}

-- An option stands among those given.
abbrev pub asked : (Opt → Bool) → List Opt → Bool
asked test [] = false
asked test (o ∷ opts) = test o || asked test opts

abbrev pub is_pids : Opt → Bool
is_pids show_pids = true
is_pids numeric_sort = false
is_pids version = false
is_pids help = false
is_pids unrecognized = false

abbrev pub is_version : Opt → Bool
is_version show_pids = false
is_version numeric_sort = false
is_version version = true
is_version help = false
is_version unrecognized = false

abbrev pub is_help : Opt → Bool
is_help show_pids = false
is_help numeric_sort = false
is_help version = false
is_help help = true
is_help unrecognized = false

abbrev pub is_unknown : Opt → Bool
is_unknown show_pids = false
is_unknown numeric_sort = false
is_unknown version = false
is_unknown help = false
is_unknown unrecognized = true

or_true : (b : Bool) → (b || true) ≡ true
or_true true = refl
or_true false = refl

-- The flags behind the options.
abbrev pub flags_of : List Opt → Flags → Flags
flags_of opts f = record {
  shows_pids = f.shows_pids || asked is_pids opts;
  asks_version = f.asks_version || asked is_version opts;
  asks_help = f.asks_help || asked is_help opts;
}

or_false : (b : Bool) → (b || false) ≡ b
or_false true = refl
or_false false = refl

pub read_opts-flags_of :
    (opts : List Opt) (f : Flags)
    → read_opts opts f ≡ (if asked is_unknown opts then none else some (flags_of opts f))
unfolding read_opts
read_opts-flags_of [] f =
    let same_flags : flags_of [] f ≡ f =
      rw (or_false f.shows_pids, or_false f.asks_version, or_false f.asks_help) refl in
    ap some (sym same_flags)
read_opts-flags_of (show_pids ∷ opts) f =
    rw (or_true f.shows_pids) (read_opts-flags_of opts (record f { shows_pids = true }))
read_opts-flags_of (numeric_sort ∷ opts) f = read_opts-flags_of opts f
read_opts-flags_of (version ∷ opts) f =
    rw (or_true f.asks_version) (read_opts-flags_of opts (record f { asks_version = true }))
read_opts-flags_of (help ∷ opts) f =
    rw (or_true f.asks_help) (read_opts-flags_of opts (record f { asks_help = true }))
read_opts-flags_of (unrecognized ∷ opts) f = refl
