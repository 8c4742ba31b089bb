-- ===== src/Client/Connect.antt =====
-- `mixp_mount` and `mixp_mount_addr` of libmixp/client.c: a server is dialled, and what the socket gives is mounted.
use libmixp.Base.{ℕ, Option, none, some, Bytes}
use mathlib.Core.Option
use libmixp.Compound.{Str}
use libmixp.Fcall.{Fcall}
use libmixp.Addr.{ServerAddress}
use libmixp.Socket.{Net, mixp_dial_addr, mixp_dial}
use libmixp.Socket.Kept.{Opens, Same, Kept, Descriptors}
use libmixp.Client.Mount.{Mounted, mixp_mountfd}

unfoldable pub hang_up : {W : Type 0} → Net W → ℕ → W → W
hang_up net fd w = net.close fd (net.shutdown fd w)

module _ {W : Type 0} (net : Net W) (muxrpc : ℕ → W → Fcall → W × Option Fcall) (user : Str) where
  unfoldable pub mount_dialled : W × Option ℕ → W × Option Mounted
  mount_dialled (w, none) = (w, none)
  mount_dialled (w, some fd) = mixp_mountfd (muxrpc fd) (hang_up net fd) user w

  unfoldable pub mixp_mount : Option Bytes → W → Option (W × Option Mounted)
  mixp_mount address w = Option.map mount_dialled (mixp_dial net address w)

  unfoldable pub mixp_mount_addr : ServerAddress → W → Option (W × Option Mounted)
  mixp_mount_addr addr w = Option.map mount_dialled (mixp_dial_addr net addr w)

module _ {W : Type 0} (net : Net W) (files : Descriptors net)
    (muxrpc : ℕ → W → Fcall → W × Option Fcall)
    (calls : (fd : ℕ) (w : W) (f : Fcall) → Same files.is_open w (muxrpc fd w f).0)
    (user : Str) where
  open files use {is_open}

  -- A client has one descriptor that is open more, and no client means that none is.
  abbrev pub MountsOne : W → W × Option Mounted → Type 0
  MountsOne w (w1, none) = Same is_open w w1
  MountsOne w (w1, some c) = (fd : ℕ) × Opens is_open w w1 fd
