-- ===== src/Net/Readers.antt =====
-- The four loops that read the tunnel meet the interface of a connection (net/tcp.rs, net/udp.rs).
use lantun.Addr.{v4}
use lantun.Net.Tcp.{tcp-IsLoop}
use lantun.Net.Udp.{udp-IsLoop}
use lantun.Forward.Wire.Carried.{IsReader}
use lantun.Net.Tcp
use lantun.Net.Udp
use lantun.Base.{refl}

pub tcp-IsReader : IsReader Tcp.host_reader × IsReader Tcp.client_reader
tcp-IsReader = (
  record { loops = tcp-IsLoop.0; pays = λ chunk. refl; ends = refl },
  record { loops = tcp-IsLoop.2; pays = λ chunk. refl; ends = refl },
)

pub udp-IsReader : IsReader Udp.host_reader × IsReader Udp.client_reader
udp-IsReader = (
  record { loops = (udp-IsLoop (v4 0 0)).0; pays = λ chunk. refl; ends = refl },
  record { loops = (udp-IsLoop (v4 0 0)).2; pays = λ chunk. refl; ends = refl },
)
