-- ===== src/Recorder/Classify/Tests.antt =====
-- Runs of splitURL and detectType.
use honeynet.Base.{◌≡◌, refl, codes, equal, has_prefix}
use honeynet.Shell.Commands.Echo.{index_byte}
use honeynet.Recorder.Classify.{
  cut_scheme, default_port, port_from, last_index, cut_port, cut_path, split_url, detect_type,
}

with_port :
    split_url (λ s. s) (codes "https://h.example:8443/x")
    ≡ record { scheme = codes "https"; host = codes "h.example"; port = 8443; path = codes "/x" }
unfolding split_url cut_scheme cut_path cut_port port_from last_index default_port index_byte
    has_prefix equal
with_port = refl

-- The port is no more than a number of 32 bits, and wraps.
port_wraps :
    split_url (λ s. s) (codes "http://h:4294967376")
    ≡ record { scheme = codes "http"; host = codes "h"; port = 80; path = codes "/" }
unfolding split_url cut_scheme cut_path cut_port port_from last_index default_port index_byte
    has_prefix equal
port_wraps = refl

a_script : detect_type (codes "#!/bin/sh\n") ≡ codes "text/x-script"
unfolding detect_type has_prefix
a_script = refl
