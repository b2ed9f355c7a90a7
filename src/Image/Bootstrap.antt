-- ===== src/Image/Bootstrap.antt =====
-- src/image/bootstrap.rs: the base image, by a download or by debootstrap. What goes to stderr is
-- left out, and so is the status in the message of a failed debootstrap.
use clawstainer.Base.{
  String, Bool, false, Option, none, some, List, [], ◌∷◌, ◌==◌, if◌then◌else◌, ◌&&◌, ltb, leb,
}
use clawstainer.Base.Text.{lines, replace_text, split_once, text_after}
use clawstainer.Errors.{other, Result, ok, err}
use clawstainer.Exec.{Exec, pure, fail, lift, ignore, attempt, ◌>>=◌, ◌>>◌}
use clawstainer.Image.Paths.{FileHost, ◌^◌, ◌//◌, run_or}
use clawstainer.Runtime.Host.{success, context}
use Prim.Native.Char.{Char, code}
use Prim.Native.Nat.{Ordering}
use Prim.Native.String.{compare, len}

abbrev image_path : String
image_path = "/var/lib/clawstainer/base-images/ubuntu-24.04"

-- `ends_with('/')`, and `trim_end_matches('/')`.
abbrev ends_with_slash : String → Bool
ends_with_slash String.[] = false
ends_with_slash (String.◌∷◌ c String.[]) = String.◌∷◌ c String.[] == "/"
ends_with_slash (String.◌∷◌ c (String.◌∷◌ d s)) = ends_with_slash (String.◌∷◌ d s)

abbrev unless_slash : Char → String → String
unless_slash c String.[] = if String.◌∷◌ c String.[] == "/" then "" else String.◌∷◌ c String.[]
unless_slash c (String.◌∷◌ d s) = String.◌∷◌ c (String.◌∷◌ d s)

unfoldable pub trim_slashes : String → String
trim_slashes String.[] = String.[]
trim_slashes (String.◌∷◌ c s) = unless_slash c (trim_slashes s)

abbrev starts_with_digit : String → Bool
starts_with_digit String.[] = false
starts_with_digit (String.◌∷◌ c s) = leb b'0' (code c) && leb (code c) b'9'

abbrev quoted_part : Option (String × String) → Option String
quoted_part none = none
quoted_part (some (href, rest)) =
    if ltb 8 (len href) && ends_with_slash href && starts_with_digit href
    then some (trim_slashes href)
    else none

abbrev href_build : Option String → Option String
href_build none = none
href_build (some rest) = quoted_part (split_once b'"' rest)

-- The build directory that a line of the index links to.
unfoldable pub build_of_line : String → Option String
unfolding text_after trim_slashes split_once
build_of_line line = href_build (text_after "href=\"" line)

-- `max()`: the last of the greatest.
abbrev greater : Option String → Option String → Option String
greater none later = later
greater (some a) none = some a
greater (some a) (some b) = elim (compare a b) [ Ordering.gt ↦ some a | _ ↦ some b ]

unfoldable pub latest_of : List String → Option String
unfolding build_of_line
latest_of [] = none
latest_of (line ∷ rest) = greater (build_of_line line) (latest_of rest)

unfoldable pub latest_build : String → Option String
unfolding latest_of lines
latest_build html = latest_of (lines html)

abbrev lxc_url : String → Result String
lxc_url arch =
    if arch == "aarch64"
    then ok "https://images.linuxcontainers.org/images/ubuntu/noble/arm64/default"
    else if arch == "x86_64"
    then ok "https://images.linuxcontainers.org/images/ubuntu/noble/amd64/default"
    else err (other ("Unsupported architecture: " ^ arch))

abbrev found_build : Option String → Result String
found_build none = err (other "Could not find any builds in image index")
found_build (some build) = ok build

abbrev disabled_services : List String
disabled_services = "apt-daily.timer" ∷ "apt-daily-upgrade.timer" ∷ []

module _ {W : Type 0} (files : FileHost W) where
  unfoldable pub fetch_index : String → Exec W String
  fetch_index base_url = do
    o ←
        context "Failed to fetch image index (is curl installed?)"
          (files.run ("curl" ∷ "-fsSL" ∷ base_url ∷ []))
    if success o
        then pure o.stdout
        else fail (other ("Failed to fetch image index from " ^ base_url))

  abbrev check_rootfs : String → Exec W Unit
  check_rootfs path w =
      if files.exists (path // "bin") w
      then (ok tt, w)
      else (err (other "Downloaded rootfs appears invalid (no /bin directory)"), w)

  unfoldable pub download_rootfs : String → Exec W Unit
  unfolding latest_build
  download_rootfs path = do
    base_url ← lift (lxc_url files.arch)
    html ← fetch_index base_url
    build ← lift (found_build (latest_build html))
    let url = base_url ^ "/" ^ build ^ "/rootfs.tar.xz"
    run_or files "Failed to download and extract rootfs"
        (other ("Failed to download/extract rootfs from " ^ url))
        ("sh" ∷ "-c" ∷ ("curl -fSL '" ^ url ^ "' | xz -d | tar -xf - -C '" ^ path ^ "'") ∷ [])
    check_rootfs path

  abbrev debootstrap_command : String → List String
  debootstrap_command path =
      "debootstrap" ∷ "--variant=minbase" ∷ "--include=systemd,dbus,iproute2,systemd-resolved"
      ∷ "noble" ∷ path ∷ []

  abbrev undo_debootstrap : String → Exec W Unit
  undo_debootstrap path = do
    ignore (files.remove_dir_all path)
    fail (other "debootstrap failed with exit code")

  abbrev no_debootstrap : String
  no_debootstrap =
      "Neither image download nor debootstrap succeeded.\nInstall debootstrap with: apt-get install -y debootstrap"

  abbrev run_debootstrap : String → Exec W Unit
  run_debootstrap path = do
    status ← context "Failed to run debootstrap" (files.run (debootstrap_command path))
    if success status then pure tt else undo_debootstrap path

  unfoldable pub debootstrap : String → Exec W Unit
  debootstrap path = do
    which ← context "Failed to check for debootstrap" (files.run ("which" ∷ "debootstrap" ∷ []))
    if success which then run_debootstrap path else fail (other no_debootstrap)

  abbrev patch_shadow : String → Exec W Unit
  patch_shadow shadow = do
    content ← files.read_to_string shadow
    files.write shadow (replace_text "root:*:" "root::" content)

  abbrev patch_present : String → Exec W Unit
  patch_present shadow w = if files.exists shadow w then patch_shadow shadow w else (ok tt, w)

  abbrev unlink : String → Exec W Unit
  unlink path w = if files.is_symlink path w then ignore (files.remove_file path) w else (ok tt, w)

  unfoldable pub disable_services : String → List String → Exec W Unit
  disable_services path [] = pure tt
  disable_services path (service ∷ services) = do
    ignore (files.remove_file (path // ("etc/systemd/system/multi-user.target.wants" // service)))
    disable_services path services

  unfoldable pub apply_fixups : String → Exec W Unit
  apply_fixups path = do
    patch_present (path // "etc/shadow")
    unlink (path // "etc/resolv.conf")
    files.write (path // "etc/resolv.conf") "nameserver 10.0.0.1\nnameserver 8.8.8.8\n"
    files.create_dir_all (path // "etc/systemd/network")
    files.write (path // "etc/systemd/network/80-container-host0.network")
        "[Match]\nName=host0\n\n[Network]\nDHCP=ipv4\n"
    disable_services path disabled_services

  abbrev after_download : Result (Unit {0}) → Exec W String
  after_download (ok _) = do apply_fixups image_path; pure image_path
  after_download (err e) = do
    ignore (files.remove_dir_all image_path)
    files.create_dir_all image_path
    debootstrap image_path
    apply_fixups image_path
    pure image_path

  unfoldable pub fetch_base_image : Exec W String
  fetch_base_image = do
    context "Failed to create base image directory" (files.create_dir_all image_path)
    downloaded ← attempt (download_rootfs image_path)
    after_download downloaded

  unfoldable pub ensure_base_image : Exec W String
  ensure_base_image w =
      if files.exists image_path w && files.exists (image_path // "bin") w
      then (ok image_path, w)
      else fetch_base_image w
