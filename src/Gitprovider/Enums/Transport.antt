-- ===== src/Gitprovider/Enums/Transport.antt =====
-- gitprovider/enums.go: `TransportType`.
use go_git_providers.Prelude.{Str, codes}

abbrev pub TransportType : Type 0
TransportType = Str

abbrev pub https : TransportType
https = codes "https"

abbrev pub git : TransportType
git = codes "git"

abbrev pub ssh : TransportType
ssh = codes "ssh"
