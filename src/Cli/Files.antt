-- ===== src/Cli/Files.antt =====
-- The commands and the configuration file (main.rs, config.rs): on a disk that works, a command
-- replaces the configuration in the file by the edited one.
use lantun.Cli.Effects.{saves, run_action-Effect, stays, Effect, answer}
use mathlib.Core.Path.{subst}
use lantun.Cli.Edits.{edits, edit}
use lantun.Cli.Commands.{Ran, with_config, Action, main}
use lantun.Runtime.{Runtime}
use lantun.Base.{◌∷◌, [], sym, List, Outcome, arith, refl, some, Text, ok, Option, none, ◌≡◌}
use lantun.Cli.Config.{
  Report, or_default, create_config, read, write, empty_config, load_config, save_config, IsCodecs,
  LanTunConfig, Codecs, Disk,
}

-- The disk answers every call without an error.
abbrev pub Works : Disk → Type 0
Works d = (d.mkdir_error ≡ none) × (d.read_error ≡ none) × (d.write_error ≡ none)

-- The file holds the configuration; with no file it is the empty one.
abbrev pub HoldsText : Codecs → LanTunConfig → Option Text → Type 0
HoldsText C c none = c ≡ empty_config
HoldsText C c (some s) = C.toml_from_str s ≡ ok c

pub record Holds (C : Codecs) (c : LanTunConfig) (d : Disk) : Type 0 where
  pub works : Works d
  pub holds : HoldsText C c d.contents

write_works :
    (s : Text) (d : Disk)
    → d.write_error ≡ none
    → write s d ≡ (record d { contents = some s }, ok tt)
write_works s d h = ground arith

read_works : (s : Text) (d : Disk) → d.read_error ≡ none → read s d ≡ ok s
read_works s d h = ground arith

module _ (C : Codecs) (L : IsCodecs C) where
  -- What is saved is held.
  pub save_config-Holds :
      (c : LanTunConfig) (d : Disk)
      → Works d
      → ((save_config C c d).1 ≡ ok tt) × Holds C c (save_config C c d).0
  unfolding save_config
  save_config-Holds c d w =
      let (s, e) = L.toml_to_string_total c in
      rw (e, write_works s d w.2)
        (refl, record { works = w; holds = L.toml_from_str-toml_to_string c s e })

  create_config_works :
      (d : Disk) (o : Option Text)
      → o ≡ none
      → create_config C o d ≡ or_default C (save_config C empty_config d)
  unfolding save_config
  create_config_works d none e = refl
  create_config_works d (some m) e = cc

  load_config-Holds :
      (c : LanTunConfig) (d : Disk) (o : Option Text)
      → d.contents ≡ o
      → Works d
      → HoldsText C c o
      → ((load_config C d).1 ≡ ok c) × Holds C c (load_config C d).0
  unfolding load_config
  load_config-Holds c d none e w h =
      let (saved, held) = save_config-Holds empty_config d w in
      rw (e, load_config) (rw (create_config_works d d.mkdir_error w.0, saved, h) (refl, held))
  load_config-Holds c d (some s) e w h =
      rw (e, load_config) (rw (read_works s d w.1, h) (refl, record { works = w; holds = rw e h }))

  -- What the file holds is loaded, and it holds that still; a missing file is the empty
  -- configuration, and is written.
  pub load_config_lem :
      (c : LanTunConfig) (d : Disk)
      → Holds C c d
      → ((load_config C d).1 ≡ ok c) × Holds C c (load_config C d).0
  load_config_lem c d h = load_config-Holds c d d.contents refl h.works h.holds

module _ (C : Codecs) (L : IsCodecs C) (R : Runtime) where
  -- A run that answers `r` and leaves the configuration `c` in the file.
  abbrev pub Leaves : Outcome Report (Unit {0}) → LanTunConfig → Ran → Type 0
  Leaves r c x = (x.result ≡ r) × Holds C c x.disk

  Effect-Leaves :
      {r : Outcome Report (Unit {0})} {c c' : LanTunConfig} {d : Disk} {x : Ran}
      → Effect C R r c c' d x
      → Holds C c d
      → Leaves r c' x
  Effect-Leaves (stays same disk result) h = rw (disk, result, same) (refl, h)
  Effect-Leaves {c'} {d} (saves before after result run) h =
      rw (run, result) (save_config-Holds C L c' d h.works)

  -- With codecs that meet their laws, on a disk that answers every call and holds a configuration,
  -- a command succeeds, unless it is an add-client whose secret is no hex text, which is refused
  -- with a message, and leaves the edited configuration in the file.
  pub main-Leaves :
      (key : R.SecretKey) (action : Action) (c : LanTunConfig) (d : Disk)
      → Holds C c d
      → Leaves (answer C R action) (edit C R key action c) (main C R key action d)
  unfolding main
  main-Leaves key action c d h =
      let (loaded, held) = load_config_lem C L c d h in
      subst
        (λ r.
          Leaves (answer C R action) (edit C R key action c)
            (with_config C R key action ((load_config C d).0, r)))
        (sym loaded) (Effect-Leaves (run_action-Effect C R key action c (load_config C d).0) held)

  -- The disk after a sequence of commands.
  pub runs : List (R.SecretKey × Action) → Disk → Disk
  runs [] d = d
  runs ((key, action) ∷ more) d = runs more (main C R key action d).disk

  -- With codecs that meet their laws, on a disk that answers every call and holds a configuration,
  -- any sequence of commands leaves in the file the configuration that the edits of the commands
  -- give, one after the other.
  pub runs-Holds :
      (actions : List (R.SecretKey × Action)) (c : LanTunConfig) (d : Disk)
      → Holds C c d
      → Holds C (edits C R actions c) (runs actions d)
  unfolding runs edits
  runs-Holds [] c d h = h
  runs-Holds ((key, action) ∷ more) c d h =
      runs-Holds more (edit C R key action c) (main C R key action d).disk
        (main-Leaves key action c d h).1
