-- ===== src/Storage/Memory/Acks.antt =====
-- Acknowledging commands one after the other: `AckCommand` of server/storage/repository.go.
use iot_server.Base.{
  ◌≡◌, refl, ◌∙◌, subst, Bool, true, false, ◌||◌, List, [], ◌∷◌, ◌++◌, arith, append_assoc,
}
use iot_server.Base.Text.{Bytes, bytes_eq, bytes_eq_refl}
use iot_server.Models.{DeviceCommand}
use iot_server.Storage.Memory.{without_command}

-- What is left of commands when others are acknowledged.
unfoldable pub without_commands : List DeviceCommand → List DeviceCommand → List DeviceCommand
without_commands [] cs = cs
without_commands (a ∷ as') cs = without_commands as' (without_command a.command_id cs)

-- Whether a command identifier is among those of some commands.
unfoldable has_id : Bytes → List DeviceCommand → Bool
has_id command_id [] = false
has_id command_id (a ∷ as') = bytes_eq command_id a.command_id || has_id command_id as'

without_commands-cons :
    (as' : List DeviceCommand) (c : DeviceCommand) (cs : List DeviceCommand)
    → has_id c.command_id as' ≡ true
    → without_commands as' (c ∷ cs) ≡ without_commands as' cs
unfolding has_id without_commands without_command
without_commands-cons [] c cs h = absurd (ground (arith, h))
without_commands-cons (a ∷ as') c cs h =
    ground (arith, h, without_commands-cons as' c (without_command a.command_id cs))

has_id-append :
    (as' : List DeviceCommand) (c : DeviceCommand) (cs : List DeviceCommand)
    → has_id c.command_id (as' ++ (c ∷ cs)) ≡ true
unfolding has_id
has_id-append [] c cs = ground (arith, bytes_eq_refl c.command_id)
has_id-append (a ∷ as') c cs = ground (arith, has_id-append as' c cs)

without_commands-nil : (as' : List DeviceCommand) → without_commands as' [] ≡ []
unfolding without_commands without_command
without_commands-nil [] = refl
without_commands-nil (a ∷ as') = without_commands-nil as'

without_commands-tail : (as' cs : List DeviceCommand) → without_commands (as' ++ cs) cs ≡ []
without_commands-tail as' [] = without_commands-nil (as' ++ [])
without_commands-tail as' (c ∷ cs) =
    without_commands-cons (as' ++ (c ∷ cs)) c cs (has_id-append as' c cs)
    ∙ subst (λ xs. without_commands xs cs ≡ []) (append_assoc as' (c ∷ []) cs)
        (without_commands-tail (as' ++ (c ∷ [])) cs)

-- Nothing is left when every command is acknowledged.
pub without_commands_self : (cs : List DeviceCommand) → without_commands cs cs ≡ []
without_commands_self cs = without_commands-tail [] cs
