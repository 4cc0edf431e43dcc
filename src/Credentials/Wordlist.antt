-- ===== src/Credentials/Wordlist.antt =====
-- node/internal/credentials/wordlist.go: the corpus that passwords are drawn from.
use honeynet.Base.{List, [], ◌∷◌, Bytes, codes}

unfoldable pub head_passwords : List Bytes
head_passwords =
    codes "123456"
    ∷ codes "password"
    ∷ codes "12345678"
    ∷ codes "qwerty"
    ∷ codes "123456789"
    ∷ codes "12345"
    ∷ codes "1234"
    ∷ codes "111111"
    ∷ codes "1234567"
    ∷ codes "dragon"
    ∷ codes "123123"
    ∷ codes "abc123"
    ∷ codes "letmein"
    ∷ codes "monkey"
    ∷ codes "shadow"
    ∷ codes "sunshine"
    ∷ codes "12345678910"
    ∷ codes "654321"
    ∷ codes "master"
    ∷ codes "666666"
    ∷ codes "qwertyuiop"
    ∷ codes "123321"
    ∷ codes "mustang"
    ∷ codes "1234567890"
    ∷ codes "888888"
    ∷ codes "princess"
    ∷ codes "trustno1"
    ∷ codes "000000"
    ∷ codes "iloveyou"
    ∷ codes "password1"
    ∷ codes "admin123"
    ∷ codes "root"
    ∷ codes "admin"
    ∷ codes "toor"
    ∷ codes "pass"
    ∷ codes "test"
    ∷ codes "guest"
    ∷ codes "user"
    ∷ codes "default"
    ∷ codes "changeme"
    ∷ codes "welcome"
    ∷ codes "administrator"
    ∷ codes "supervisor"
    ∷ codes "support"
    ∷ codes "service"
    ∷ codes "operator"
    ∷ codes "manager"
    ∷ codes "system"
    ∷ codes "public"
    ∷ codes "private"
    ∷ codes "vizxv"
    ∷ codes "xc3511"
    ∷ codes "juantech"
    ∷ codes "anko"
    ∷ codes "zlxx"
    ∷ codes "7ujMko0admin"
    ∷ codes "7ujMko0vizxv"
    ∷ codes "ikwb"
    ∷ codes "dreambox"
    ∷ codes "realtek"
    ∷ codes "meinsm"
    ∷ codes "smcadmin"
    ∷ codes "klv123"
    ∷ codes "klv1234"
    ∷ codes "jvbzd"
    ∷ codes "hi3518"
    ∷ codes "xmhdipc"
    ∷ codes "cat1029"
    ∷ codes "hslwjkl123"
    ∷ codes "20080826"
    ∷ codes "1001chin"
    ∷ codes "tsgoingon"
    ∷ codes "solokey"
    ∷ codes "tlJwpbo6"
    ∷ codes "fliradmin"
    ∷ codes "telecomadmin"
    ∷ codes "aquario"
    ∷ codes "nE7jA%5m"
    ∷ codes "ubnt"
    ∷ codes "raspberry"
    ∷ codes "cisco"
    ∷ codes "calvin"
    ∷ codes "openwrt"
    ∷ codes "nagiosadmin"
    ∷ []

unfoldable pub tail_passwords : List Bytes
tail_passwords =
    codes "chelsea"
    ∷ codes "arsenal"
    ∷ codes "liverpool"
    ∷ codes "barcelona"
    ∷ codes "ferrari"
    ∷ codes "porsche"
    ∷ codes "corvette"
    ∷ codes "mustang01"
    ∷ codes "yamaha"
    ∷ codes "phoenix"
    ∷ codes "falcon"
    ∷ codes "panther"
    ∷ codes "cobra"
    ∷ codes "viper"
    ∷ codes "raptor"
    ∷ codes "dolphin"
    ∷ codes "samurai"
    ∷ codes "warrior"
    ∷ codes "sniper"
    ∷ codes "champion"
    ∷ codes "victory"
    ∷ codes "freedom"
    ∷ codes "whatever"
    ∷ codes "internet"
    ∷ codes "computer"
    ∷ codes "starwars"
    ∷ codes "pokemon"
    ∷ codes "minecraft"
    ∷ codes "gandalf"
    ∷ codes "matrix"
    ∷ codes "neo"
    ∷ codes "jennifer"
    ∷ codes "michelle"
    ∷ codes "stephanie"
    ∷ codes "kathleen"
    ∷ codes "caroline"
    ∷ codes "christine"
    ∷ codes "rebecca"
    ∷ codes "virginia"
    ∷ codes "patrick"
    ∷ codes "anthony"
    ∷ codes "brandon"
    ∷ codes "jonathan"
    ∷ codes "nicholas"
    ∷ codes "benjamin"
    ∷ codes "alexander"
    ∷ codes "christopher"
    ∷ codes "summer2019"
    ∷ codes "winter2020"
    ∷ codes "spring2021"
    ∷ codes "autumn2022"
    ∷ codes "london2018"
    ∷ codes "hunter77"
    ∷ codes "ranger22"
    ∷ codes "pepper99"
    ∷ codes "ginger14"
    ∷ codes "silver63"
    ∷ codes "orange41"
    ∷ codes "maggie08"
    ∷ codes "buster31"
    ∷ codes "harley56"
    ∷ codes "cookie72"
    ∷ codes "banana19"
    ∷ codes "flower85"
    ∷ []

unfoldable pub weak_accounts : List Bytes
weak_accounts =
    codes "root"
    ∷ codes "admin"
    ∷ codes "administrator"
    ∷ codes "user"
    ∷ codes "test"
    ∷ codes "guest"
    ∷ codes "demo"
    ∷ codes "oracle"
    ∷ codes "pi"
    ∷ codes "support"
    ∷ codes "service"
    ∷ codes "supervisor"
    ∷ codes "operator"
    ∷ codes "backup"
    ∷ codes "deploy"
    ∷ codes "ftp"
    ∷ codes "ftpuser"
    ∷ codes "mysql"
    ∷ codes "postgres"
    ∷ codes "tomcat"
    ∷ codes "jenkins"
    ∷ codes "ubnt"
    ∷ codes "default"
    ∷ codes "system"
    ∷ codes "telnet"
    ∷ []
