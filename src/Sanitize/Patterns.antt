-- ===== src/Sanitize/Patterns.antt =====
-- The phrases, tags and characters that security/sanitize.rs looks for.
use vaultproxy.Prelude.{ℕ, List, [], ◌∷◌, Text, codes}

abbrev pub injection_phrases : List Text
injection_phrases =
    codes "ignore previous instructions"
    ∷ codes "ignore all previous"
    ∷ codes "ignore all prior"
    ∷ codes "new instructions:"
    ∷ codes "new system prompt"
    ∷ codes "you must now"
    ∷ codes "you should now"
    ∷ codes "you will now"
    ∷ codes "override instructions"
    ∷ codes "disregard prior"
    ∷ codes "disregard previous"
    ∷ codes "disregard above"
    ∷ codes "forget previous"
    ∷ codes "forget all prior"
    ∷ codes "forget everything above"
    ∷ codes "important: ignore"
    ∷ codes "stop being an ai"
    ∷ codes "stop being a helpful"
    ∷ codes "pretend you are"
    ∷ codes "pretend to be"
    ∷ codes "act as if"
    ∷ codes "act as though"
    ∷ codes "switch to a new role"
    ∷ codes "entering maintenance mode"
    ∷ codes "entering admin mode"
    ∷ codes "entering debug mode"
    ∷ codes "from now on ignore"
    ∷ codes "from now on you"
    ∷ codes "call the tool"
    ∷ codes "invoke the function"
    ∷ codes "execute the command"
    ∷ codes "execute the tool"
    ∷ codes "use the tool"
    ∷ codes "run the mcp"
    ∷ codes "run the ssh"
    ∷ codes "run the docker"
    ∷ codes "vault__rotate"
    ∷ codes "ssh__exec"
    ∷ codes "docker__exec"
    ∷ codes "docker__remove"
    ∷ codes "change_password"
    ∷ codes "delete_item"
    ∷ codes "rotate_password"
    ∷ []

abbrev pub markup_patterns : List Text
markup_patterns =
    codes "<system"
    ∷ codes "</system>"
    ∷ codes "<tool_call>"
    ∷ codes "</tool_call>"
    ∷ codes "<tool_calls>"
    ∷ codes "</tool_calls>"
    ∷ codes "<tool_use>"
    ∷ codes "</tool_use>"
    ∷ codes "<tool_result"
    ∷ codes "</tool_result"
    ∷ codes "<function_call>"
    ∷ codes "</function_call>"
    ∷ codes "<function_result"
    ∷ codes "</function_result"
    ∷ codes "<assistant>"
    ∷ codes "</assistant>"
    ∷ codes "<user>"
    ∷ codes "</user>"
    ∷ codes "<human>"
    ∷ codes "</human>"
    ∷ codes "</s>"
    ∷ codes "<|endoftext|>"
    ∷ codes "<|im_end|>"
    ∷ codes "<|im_start|>"
    ∷ codes "[INST]"
    ∷ codes "[/INST]"
    ∷ codes "<<SYS>>"
    ∷ codes "</SYS>"
    ∷ codes "```tool_code"
    ∷ codes "```function"
    ∷ codes "SYSTEM:"
    ∷ codes "SYSTEM PROMPT:"
    ∷ codes "USER:"
    ∷ codes "ASSISTANT:"
    ∷ []

abbrev pub zero_width_chars : List ℕ
zero_width_chars =
    0x200b ∷ 0x200c ∷ 0x200d ∷ 0x200e ∷ 0x200f ∷ 0x202a ∷ 0x202b ∷ 0x202c ∷ 0x202d ∷ 0x202e ∷ 0x2060
    ∷ 0x2061 ∷ 0x2062 ∷ 0x2063 ∷ 0x2064 ∷ 0xfeff ∷ 0x00ad ∷ 0x034f ∷ 0x180e ∷ []

-- MAX_OUTPUT_SIZE
abbrev pub max_output_size : ℕ
max_output_size = 102400
